-- ===== src/Ceremony/Instance/Moves.antt =====
-- entities/ceremony_instance.rs: the one place where a session moves.
use underpass_choreographer.Shared.{not, String, Option, none, some, [], ◌∷◌, ◌++◌, if◌then◌else◌}
use underpass_choreographer.Shared.Result.{invariant_violated, invalid_transition, ok_or}
use underpass_choreographer.Shared.Action.{Action, check, put, get, lift, guard, pure, ◌>>=◌, ◌>>◌}
use underpass_choreographer.Ceremony.Attributes.{Json}
use underpass_choreographer.Ceremony.Step.Lease.{Time}
use underpass_choreographer.Ceremony.Guard.{RoleAction}
use underpass_choreographer.Ceremony.Definition.Data.{
  CeremonyDefinition, transition_for_trigger, guards_are_satisfied, is_terminal_state,
}
use underpass_choreographer.Ceremony.Instance.Data.{
  CeremonyInstance, is_terminal, require_definition, require_role,
}

module _ {V : Type 0} ⦃j : Json V⦄ where
  unfoldable pub move_on :
      CeremonyDefinition V → String → Option String → Time → Action (CeremonyInstance V) String
  unfolding require_definition
  move_on d trigger applied_by now = do
    check (require_definition d)
    s ← get
    guard (not (is_terminal d s))
        (invariant_violated "terminal ceremony instances cannot transition")
    t ← lift (
        ok_or (transition_for_trigger d s.current_state trigger)
          (invalid_transition "ceremony_instance.current_state" "transition_trigger"))
    guard (guards_are_satisfied d t s.step_records s.context)
        (invariant_violated "ceremony transition guards are not satisfied")
    put (record s {
      current_state = t.to;
      transitions =
          s.transitions
          ++ record {
            trigger = trigger;
            from_state = s.current_state;
            to_state = t.to;
            applied_by = applied_by;
            applied_at = now;
          }
            ∷ [];
      updated_at = now;
      completed_at = if is_terminal_state d t.to then some now else s.completed_at;
    })
    pure t.to

  unfoldable pub apply_transition_as :
      CeremonyDefinition V → String → String → Time → Action (CeremonyInstance V) String
  unfolding move_on
  apply_transition_as d role_id trigger now = do
    check (require_role d role_id (RoleAction.transition trigger))
    move_on d trigger (some role_id) now

  unfoldable pub apply_transition :
      CeremonyDefinition V → String → Time → Action (CeremonyInstance V) String
  unfolding move_on
  apply_transition d trigger now = move_on d trigger none now
