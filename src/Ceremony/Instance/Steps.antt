-- ===== src/Ceremony/Instance/Steps.antt =====
-- entities/ceremony_instance.rs: how a step is leased and started, and how its result is applied.
use underpass_choreographer.Shared.{not, String, elem, ◌==◌, ⊤}
use underpass_choreographer.Shared.Map.{lookup, insert, set_insert}
use underpass_choreographer.Shared.Result.{
  invariant_violated, not_found, already_exists, invalid_transition, ok_or,
}
use underpass_choreographer.Shared.Action.{Action, check, put, get, lift, guard, pure, ◌>>=◌, ◌>>◌}
use underpass_choreographer.Ceremony.Step.Lease.{StepLease, Time}
use underpass_choreographer.Ceremony.Step.Record.{
  StepAttempt, StepResult, can_be_started_at, next_attempt_for_start, allows_attempt, with_started,
  with_result, is_in_progress,
}
use underpass_choreographer.Ceremony.Guard.{RoleAction}
use underpass_choreographer.Ceremony.Definition.Data.{CeremonyDefinition}
use underpass_choreographer.Ceremony.Instance.Data.{
  CeremonyInstance, is_terminal, require_definition, require_role,
}

module _ {V : Type 0} where
  unfoldable pub start_step :
      CeremonyDefinition V → String → StepLease → Time → Action (CeremonyInstance V) StepAttempt
  unfolding require_definition
  start_step d step_id lease now = do
    check (require_definition d)
    s ← get
    guard (not (is_terminal d s))
        (invariant_violated "terminal ceremony instances cannot start steps")
    step ← lift (ok_or (lookup step_id d.steps) (not_found "ceremony_instance.step"))
    guard (step.state_id == s.current_state)
        (invalid_transition "ceremony_instance.current_state" "ceremony_step.state")
    r ← lift (ok_or (lookup step_id s.step_records) (not_found "ceremony_instance.step_record"))
    guard (can_be_started_at r now) (invariant_violated "step lease is still active")
    next_attempt ← lift (next_attempt_for_start r)
    guard (allows_attempt step.retry_policy next_attempt)
        (invariant_violated "step retry policy exhausted")
    guard (not (elem lease.idempotency_key s.idempotency_keys))
        (already_exists "ceremony_instance.idempotency_key")
    put (record s {
      idempotency_keys = set_insert lease.idempotency_key s.idempotency_keys;
      step_records = insert step_id (with_started r lease next_attempt) s.step_records;
      updated_at = now;
    })
    pure next_attempt

  unfoldable pub start_step_as :
      CeremonyDefinition V
      → String
      → String
      → StepLease
      → Time
      → Action (CeremonyInstance V) StepAttempt
  unfolding start_step
  start_step_as d role_id step_id lease now = do
    check (require_role d role_id (RoleAction.step step_id))
    start_step d step_id lease now

  unfoldable pub apply_step_result :
      CeremonyDefinition V → String → StepResult V → Time → Action (CeremonyInstance V) ⊤
  unfolding require_definition
  apply_step_result d step_id result now = do
    check (require_definition d)
    s ← get
    step ← lift (ok_or (lookup step_id d.steps) (not_found "ceremony_instance.step"))
    guard (step.state_id == s.current_state)
        (invalid_transition "ceremony_instance.current_state" "ceremony_step.state")
    r ← lift (ok_or (lookup step_id s.step_records) (not_found "ceremony_instance.step_record"))
    guard (is_in_progress r.status) (invariant_violated "step result requires an in-progress step")
    put (record s {
      step_records = insert step_id (with_result r result) s.step_records;
      updated_at = now;
    })
