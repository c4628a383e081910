-- ===== src/Ceremony/Instance/Approvals.antt =====
-- Behind every human guard that is passed stands a recorded approval: entities/ceremony_instance.rs,
-- `approve_guard` and `move_on`, with value_objects/ceremony/ceremony_context.rs.
use underpass_choreographer.Shared.{
  ◌≡◌, refl, sym, subst, inl, inr, Bool-cases, Bool, true, false, ◌||◌, String, Option, some, List,
  [], ◌∷◌, ◌++◌, arith, ◌==◌, eq_iff, ⊤, elem, any, all, option_any,
}
use underpass_choreographer.Shared.Map.{Map, lookup, lookup-insert, IsKeyed}
use underpass_choreographer.Shared.Result.{is_ok}
use underpass_choreographer.Shared.Action.{Action}
use underpass_choreographer.Ceremony.Attributes.{Json, attributes_new}
use underpass_choreographer.Ceremony.Step.Lease.{Time}
use underpass_choreographer.Ceremony.Step.Record.{StepExecutionRecord}
use underpass_choreographer.Ceremony.Evidence.{CeremonyEvidencePack}
use underpass_choreographer.Ceremony.Guard.{
  CeremonyContext, CeremonyGuard, GuardCondition, with_guard_approval, is_guard_approved,
  is_satisfied,
}
use underpass_choreographer.Ceremony.Definition.Data.{
  CeremonyDefinition, CeremonyTransition, transition_for_trigger, guards_are_satisfied,
}
use underpass_choreographer.Ceremony.Definition.Built.{IsBuilt}
use underpass_choreographer.Ceremony.Intervention.Data.{
  CeremonyIntervention, respond, respond_with_evidence, close,
}
use underpass_choreographer.Ceremony.Instance.Data.{
  CeremonyInstance, CeremonyGuardApproval, AuditActorKind,
}
use underpass_choreographer.Ceremony.Instance.Steps.{start_step, start_step_as, apply_step_result}
use underpass_choreographer.Ceremony.Instance.Guards.{approve_guard, defer_guard, bind_participant}
use underpass_choreographer.Ceremony.Instance.Agenda.{
  on_intervention, request_intervention_with_provenance_as, respond_to_intervention_as,
  respond_to_intervention_with_evidence_as, close_intervention_as,
}
use underpass_choreographer.Ceremony.Instance.Reasons.{assert_reason_as, record_that_it_answers}
use underpass_choreographer.Ceremony.Instance.Moves.{apply_transition, apply_transition_as, move_on}
use underpass_choreographer.Ceremony.Instance.Commands.{Command, execute, run}

abbrev pub approved_in : String → List CeremonyGuardApproval → Bool
approved_in g approvals = any (λ a. a.guard_name == g) approvals

approved_in-snoc :
    (g : String) (given : List CeremonyGuardApproval) (a : CeremonyGuardApproval)
    → approved_in g (given ++ a ∷ []) ≡ (approved_in g given || (a.guard_name == g))
approved_in-snoc g [] a = ground arith
approved_in-snoc g (b ∷ given) a = ground (arith, approved_in-snoc g given a)

-- What a session knows of approvals.
pub record Approvals (V : Type 0) : Type 0 where
  pub context : CeremonyContext V
  pub recorded : List CeremonyGuardApproval

abbrev pub approvals : {V : Type 0} → CeremonyInstance V → Approvals V
approvals s = record { context = s.context; recorded = s.guard_approvals }

abbrev is_approval : {V : Type 0} → Command V → Bool
is_approval (Command.approve_guard _ _ _) = true
is_approval _ = false

module _ {V : Type 0} where
  approvals-on_intervention :
      (id : String) (m : Action (CeremonyIntervention V) ⊤) (s : CeremonyInstance V)
      → approvals (on_intervention id m s).0 ≡ approvals s
  unfolding on_intervention
  approvals-on_intervention id m s = refl

  approvals-record_that_it_answers :
      (item : String) (now : Time) (s : CeremonyInstance V)
      → approvals (record_that_it_answers item now s) ≡ approvals s
  unfolding record_that_it_answers
  approvals-record_that_it_answers item now s = ground arith

lookup-IsKeyed :
    (m : Map CeremonyGuard) (k : String) (g : CeremonyGuard)
    → IsKeyed (λ x. x.name) m
    → lookup k m ≡ some g
    → g.name ≡ k
lookup-IsKeyed [] k g h e = ground arith
lookup-IsKeyed ((i, x) ∷ m) k g h e = ground (arith, h, e, eq_iff i k, lookup-IsKeyed m k g)

all-elem :
    (p : String → Bool) (k : String) (xs : List String)
    → all p xs ≡ true
    → elem k xs ≡ true
    → p k ≡ true
all-elem p k [] h e = ground arith
all-elem p k (x ∷ xs) h e = elim (Bool-cases (x == k)) [
  | inl here ↦ subst (λ y. p y ≡ true) ((eq_iff x k).0 here) (ground (arith, h))
  | inr there ↦ all-elem p k xs (ground (arith, h)) (ground (arith, e, there))
]

module _ {V : Type 0} ⦃j : Json V⦄ where
  -- Whatever the context takes as approved was approved by someone.
  abbrev pub IsBacked : Approvals V → Type 0
  IsBacked p = (g : String) → is_guard_approved p.context g ≡ true → approved_in g p.recorded ≡ true

  approve_guard-IsBacked :
      (d : CeremonyDefinition V) (name role : String) (kind : AuditActorKind) (now : Time)
      (s : CeremonyInstance V)
      → IsBacked (approvals s)
      → IsBacked (approvals (approve_guard d name role kind now s).0)
  unfolding approve_guard with_guard_approval attributes_new is_guard_approved
  approve_guard-IsBacked d name role kind now s b g h = ground (
    arith,
    h,
    b g,
    lookup-insert name g (j.of_bool true) s.context,
    j.as_bool-of_bool true,
    approved_in-snoc g s.guard_approvals (record {
      guard_name = name;
      approved_by = role;
      approved_by_kind = kind;
      approved_at = now;
    }),
  )

  keeps_approvals :
      (to_value : CeremonyEvidencePack V → Option V) (d : CeremonyDefinition V) (now : Time)
      (c : Command V) (s : CeremonyInstance V)
      → is_approval c ≡ false
      → approvals (execute to_value d now c s).0 ≡ approvals s
  unfolding execute start_step start_step_as apply_step_result defer_guard bind_participant
      request_intervention_with_provenance_as respond_to_intervention_as
      respond_to_intervention_with_evidence_as close_intervention_as assert_reason_as
      apply_transition apply_transition_as
  keeps_approvals to_value d now (Command.approve_guard g role kind) s h = cc
  keeps_approvals to_value d now (Command.respond_to_intervention id role content) s h = ground (
    arith,
    approvals-on_intervention id (respond role content now) s,
    approvals-record_that_it_answers id now (on_intervention id (respond role content now) s).0,
  )
  keeps_approvals to_value d now (Command.respond_with_evidence id role pack) s h = ground (
    arith,
    approvals-on_intervention id (respond_with_evidence to_value role pack now) s,
    approvals-record_that_it_answers id now
        (on_intervention id (respond_with_evidence to_value role pack now) s).0,
  )
  keeps_approvals to_value d now (Command.close_intervention id role) s h =
      ground (arith, approvals-on_intervention id (close role now) s)
  keeps_approvals to_value d now c s h = ground arith

  execute-IsBacked :
      (to_value : CeremonyEvidencePack V → Option V) (d : CeremonyDefinition V) (now : Time)
      (c : Command V) (s : CeremonyInstance V)
      → IsBacked (approvals s)
      → IsBacked (approvals (execute to_value d now c s).0)
  unfolding execute
  execute-IsBacked to_value d now (Command.approve_guard g role kind) s b =
      approve_guard-IsBacked d g role kind now s b
  execute-IsBacked to_value d now c s b =
      subst IsBacked (sym (keeps_approvals to_value d now c s refl)) b

  run-IsBacked :
      (to_value : CeremonyEvidencePack V → Option V) (d : CeremonyDefinition V)
      (cs : List (Time × Command V)) (s : CeremonyInstance V)
      → IsBacked (approvals s)
      → IsBacked (approvals (run to_value d cs s))
  unfolding run
  run-IsBacked to_value d [] s b = b
  run-IsBacked to_value d ((now, c) ∷ cs) s b =
      run-IsBacked to_value d cs (execute to_value d now c s).0
        (execute-IsBacked to_value d now c s b)

  human_guard_approved :
      (d : CeremonyDefinition V) (t : CeremonyTransition) (records : Map (StepExecutionRecord V))
      (context : CeremonyContext V) (k : String) (g : CeremonyGuard)
      → IsKeyed (λ x. x.name) d.guards
      → guards_are_satisfied d t records context ≡ true
      → elem k t.required_guards ≡ true
      → lookup k d.guards ≡ some g
      → g.condition ≡ GuardCondition.human_approval
      → is_guard_approved context k ≡ true
  unfolding guards_are_satisfied is_satisfied
  human_guard_approved d t records context k g keyed h e found human = ground (
    arith,
    found,
    human,
    lookup-IsKeyed d.guards k g keyed found,
    all-elem (λ n. option_any (λ x. is_satisfied x records context) (lookup n d.guards)) k
        t.required_guards h e,
  )

  moved_satisfied :
      (d : CeremonyDefinition V) (trigger : String) (by : Option String) (now : Time)
      (s : CeremonyInstance V) (t : CeremonyTransition)
      → is_ok (move_on d trigger by now s).1 ≡ true
      → transition_for_trigger d s.current_state trigger ≡ some t
      → guards_are_satisfied d t s.step_records s.context ≡ true
  unfolding move_on
  moved_satisfied d trigger by now s t h e = ground (arith, h, e)

  -- After any commands on a session whose context took nothing as approved that nobody had approved,
  -- a transition that is accepted has, for each human approval guard that it requires, an approval
  -- of that guard on record.
  pub human_guards_hold :
      (to_value : CeremonyEvidencePack V → Option V) (d : CeremonyDefinition V)
      (cs : List (Time × Command V)) (origin : CeremonyInstance V) (trigger : String)
      (by : Option String) (now : Time) (t : CeremonyTransition) (k : String) (g : CeremonyGuard)
      → IsBuilt d
      → IsBacked (approvals origin)
      → is_ok (move_on d trigger by now (run to_value d cs origin)).1 ≡ true
      → transition_for_trigger d (run to_value d cs origin).current_state trigger ≡ some t
      → elem k t.required_guards ≡ true
      → lookup k d.guards ≡ some g
      → g.condition ≡ GuardCondition.human_approval
      → approved_in k (run to_value d cs origin).guard_approvals ≡ true
  human_guards_hold to_value d cs origin trigger by now t k g built b moved e required found human =
      let s = run to_value d cs origin in
      run-IsBacked to_value d cs origin b k (
        human_guard_approved d t s.step_records s.context k g built.guards_keyed
          (moved_satisfied d trigger by now s t moved e) required found human)
