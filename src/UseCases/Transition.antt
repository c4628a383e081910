-- ===== src/UseCases/Transition.antt =====
-- crates/choreo-app/src/usecases/apply_ceremony_transition_use_case.rs. What the memory recorder does
-- with an ending is left out; it answers nothing.
use underpass_choreographer.Shared.{ℕ, String, List}
use underpass_choreographer.Shared.Result.{Result, ok, err, ◌>>=◌}
use underpass_choreographer.Ceremony.Attributes.{Json}
use underpass_choreographer.Ceremony.Step.Lease.{Time}
use underpass_choreographer.Ceremony.Definition.Data.{CeremonyDefinition}
use underpass_choreographer.Ceremony.Instance.Data.{CeremonyInstance, AuditActorKind}
use underpass_choreographer.Ceremony.Instance.Moves.{apply_transition_as}
use underpass_choreographer.Audit.Record.{AuditFact, Platform}
use underpass_choreographer.Store.Data.{Store}
use underpass_choreographer.Services.Journal.{LoadedSession, load, commit_session}
use underpass_choreographer.Services.Facts.{transition_applied}

pub record ApplyCeremonyTransitionInput : Type 0 where
  pub instance_id : String
  pub role_id : String
  pub role_kind : AuditActorKind
  pub trigger : String

-- `resolve` is the definition that an instance resolves to.
module _ {V : Type 0} ⦃j : Json V⦄ (decimal : ℕ → String)
    (resolve : CeremonyInstance V → Result (CeremonyDefinition V))
    (input : ApplyCeremonyTransitionInput) (now : Time) where
  -- The session after its move, with the facts of it.
  unfoldable pub moved :
      LoadedSession V → Result (CeremonyDefinition V × LoadedSession V × List AuditFact)
  unfolding apply_transition_as transition_applied
  moved s = do
    d ← resolve s.session
    let (i, outcome) = apply_transition_as d input.role_id input.trigger now s.session
    to ← outcome
    facts ← transition_applied decimal i d input.role_id input.role_kind now
    ok (d, record s { session = i }, facts)

  -- `execute`: the two reads of the load, and the store at the commit.
  unfoldable pub apply_ceremony_transition :
      ⦃p : Platform⦄ → Store V → Store V → Store V → Store V × Result (CeremonyInstance V)
  unfolding load moved commit_session
  apply_ceremony_transition first later st = elim (load input.instance_id first later >>= moved) [
    | err e ↦ (st, err e)
    | ok (d, s, facts) ↦
        let (st', stored) = commit_session s facts st in (st', stored >>= λ t. ok t.session)
  ]
