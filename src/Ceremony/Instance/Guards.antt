-- ===== src/Ceremony/Instance/Guards.antt =====
-- entities/ceremony_instance.rs: the decisions of people, that is approving and deferring a human
-- guard and seating a role.
use underpass_choreographer.Shared.{Bool, not, String, [], ◌∷◌, ◌++◌, any, elem, is_some, ⊤}
use underpass_choreographer.Shared.Map.{lookup, insert}
use underpass_choreographer.Shared.Result.{invariant_violated, not_found, ok_or}
use underpass_choreographer.Shared.Action.{Action, check, put, get, lift, guard, ◌>>=◌, ◌>>◌}
use underpass_choreographer.Ceremony.Attributes.{Json}
use underpass_choreographer.Ceremony.Step.Lease.{Time}
use underpass_choreographer.Ceremony.Guard.{
  is_human_approval, with_guard_approval, is_guard_approved,
}
use underpass_choreographer.Ceremony.Content.{CeremonyGuardDeferralContent}
use underpass_choreographer.Ceremony.Definition.Data.{CeremonyDefinition, available_transitions}
use underpass_choreographer.Ceremony.Instance.Data.{
  CeremonyInstance, AuditActorKind, require_active, require_declared_role,
}

module _ {V : Type 0} ⦃j : Json V⦄ where
  unfoldable pub approve_guard :
      CeremonyDefinition V → String → String → AuditActorKind → Time → Action (CeremonyInstance V) ⊤
  unfolding require_active require_declared_role
  approve_guard d guard_name approved_by approved_by_kind now = do
    check (require_active d "terminal ceremony instances cannot approve guards")
    g ← lift (ok_or (lookup guard_name d.guards) (not_found "ceremony_guard"))
    guard (is_human_approval g.condition)
        (invariant_violated "only human approval guards can be approved")
    check (require_declared_role d approved_by)
    s ← get
    context ← lift (with_guard_approval s.context guard_name)
    put (record s {
      context = context;
      guard_approvals =
          s.guard_approvals
          ++ record {
            guard_name = guard_name;
            approved_by = approved_by;
            approved_by_kind = approved_by_kind;
            approved_at = now;
          }
            ∷ [];
      updated_at = now;
    })

  -- Whether a transition out of the current state requires the guard.
  abbrev pub is_currently_required : CeremonyDefinition V → String → CeremonyInstance V → Bool
  is_currently_required d guard_name s =
      any (λ t. elem guard_name t.required_guards) (available_transitions d s.current_state)

  unfoldable pub defer_guard :
      CeremonyDefinition V
      → String
      → CeremonyGuardDeferralContent
      → String
      → AuditActorKind
      → Time
      → Action (CeremonyInstance V) ⊤
  unfolding require_active require_declared_role
  defer_guard d guard_name content deferred_by deferred_by_kind now = do
    check (require_active d "terminal ceremony instances cannot defer guard decisions")
    g ← lift (ok_or (lookup guard_name d.guards) (not_found "ceremony_guard"))
    guard (is_human_approval g.condition)
        (invariant_violated "only human approval guards can be deferred")
    s ← get
    guard (not (is_guard_approved s.context guard_name))
        (invariant_violated "approved human guards cannot be deferred")
    guard (is_currently_required d guard_name s)
        (invariant_violated "human guard is not required from the current state")
    check (require_declared_role d deferred_by)
    put (record s {
      guard_deferrals =
          s.guard_deferrals
          ++ record {
            guard_name = guard_name;
            deferred_by = deferred_by;
            deferred_by_kind = deferred_by_kind;
            content = content;
            deferred_at = now;
          }
            ∷ [];
      updated_at = now;
    })

module _ {V : Type 0} where
  unfoldable pub bind_participant :
      CeremonyDefinition V → String → String → Time → Action (CeremonyInstance V) ⊤
  unfolding require_active
  bind_participant d role_id specialty now = do
    check (require_active d "terminal ceremony instances cannot be re-seated")
    guard (is_some (lookup role_id d.roles)) (not_found "ceremony_role")
    s ← get
    put (record s {
      participant_bindings =
          insert role_id (record { role_id = role_id; specialty = specialty; bound_at = now })
            s.participant_bindings;
      updated_at = now;
    })
