-- ===== src/Ceremony/Step/Record.antt =====
-- value_objects/ceremony/step_attempt.rs, retry_policy.rs, step_status.rs, step_result.rs and
-- step_execution_record.rs.
use underpass_choreographer.Shared.{
  ℕ, ◌≡◌, Bool, true, false, ◌&&◌, ◌||◌, not, String, Option, none, some, [], arith, leb, nat_eq,
  if◌then◌else◌, is_some, option_any, u32_max, saturating_add,
}
use underpass_choreographer.Shared.Result.{
  Result, ok, err, invariant_violated, empty_field, must_be_non_zero, ensure, ◌>>◌,
}
use underpass_choreographer.Ceremony.Attributes.{Attributes}
use underpass_choreographer.Ceremony.Step.Lease.{StepLease, Time, DurationMs, is_expired_at}

-- `StepAttempt`: a u32 that is not zero.
abbrev pub StepAttempt : Type 0
StepAttempt = ℕ

abbrev pub first : StepAttempt
first = 1

unfoldable pub attempt_new : ℕ → Result StepAttempt
attempt_new value = if nat_eq value 0 then err (must_be_non_zero "step_attempt") else ok value

-- `StepAttempt::next`
unfoldable pub next : StepAttempt → Result StepAttempt
unfolding attempt_new
next a = attempt_new (saturating_add u32_max a 1)

pub record RetryPolicy : Type 0 where
  pub max_attempts : StepAttempt
  pub backoff : DurationMs

unfoldable pub single_attempt : RetryPolicy
single_attempt = record { max_attempts = first; backoff = 0 }

unfoldable pub allows_attempt : RetryPolicy → StepAttempt → Bool
allows_attempt p attempt = leb attempt p.max_attempts

pub data StepStatus : Type 0 where
  pending in_progress completed failed waiting_for_human cancelled : StepStatus

abbrev pub is_executable : StepStatus → Bool
is_executable pending = true
is_executable failed = true
is_executable waiting_for_human = true
is_executable _ = false

abbrev pub is_success : StepStatus → Bool
is_success completed = true
is_success _ = false

abbrev pub is_in_progress : StepStatus → Bool
is_in_progress in_progress = true
is_in_progress _ = false

abbrev pub is_failed : StepStatus → Bool
is_failed failed = true
is_failed _ = false

-- The derived equality of `StepStatus`.
abbrev pub status_eq : StepStatus → StepStatus → Bool
status_eq pending pending = true
status_eq in_progress in_progress = true
status_eq completed completed = true
status_eq failed failed = true
status_eq waiting_for_human waiting_for_human = true
status_eq cancelled cancelled = true
status_eq _ _ = false

-- A result whose parts `result_new` has checked; `StepErrorMessage` is a validated text.
pub record StepResult (V : Type 0) : Type 0 where
  pub status : StepStatus
  pub output : Attributes V
  pub error_message : Option String

pub record StepExecutionRecord (V : Type 0) : Type 0 where
  pub status : StepStatus
  pub attempt : StepAttempt
  pub lease : Option StepLease
  pub output : Attributes V
  pub error_message : Option String

module _ {V : Type 0} where
  -- `StepResult::new`
  unfoldable pub result_new : StepStatus → Attributes V → Option String → Result (StepResult V)
  result_new status output error_message = do
    ensure (not (status_eq status pending || status_eq status in_progress))
        (invariant_violated "step result status must be observable")
    ensure (not (is_failed status && not (is_some error_message)))
        (empty_field "step_result.error_message")
    ensure (not (not (is_failed status) && is_some error_message))
        (invariant_violated "only failed step results may carry an error message")
    ok (record { status = status; output = output; error_message = error_message })

  unfoldable pub record_pending : StepExecutionRecord V
  record_pending = record {
    status = pending;
    attempt = first;
    lease = none;
    output = [];
    error_message = none;
  }

  unfoldable pub can_be_started_at : StepExecutionRecord V → Time → Bool
  can_be_started_at r now =
      if is_executable r.status
      then true
      else is_in_progress r.status && option_any (λ l. is_expired_at l now) r.lease

  unfoldable pub with_started :
      StepExecutionRecord V → StepLease → StepAttempt → StepExecutionRecord V
  with_started r lease attempt = record {
    status = in_progress;
    attempt = attempt;
    lease = some lease;
    output = r.output;
    error_message = none;
  }

  unfoldable pub with_result : StepExecutionRecord V → StepResult V → StepExecutionRecord V
  with_result r result = record {
    status = result.status;
    attempt = r.attempt;
    lease = none;
    output = result.output;
    error_message = result.error_message;
  }

  -- `next_attempt_for_start` of entities/ceremony_instance.rs.
  unfoldable pub next_attempt_for_start : StepExecutionRecord V → Result StepAttempt
  unfolding next
  next_attempt_for_start r =
      if is_failed r.status || is_in_progress r.status then next r.attempt else ok r.attempt

  -- A result that was built carries an observable status, and an error message exactly when it
  -- has failed.
  result_new_observable :
      (s : StepStatus) (o : Attributes V) (m : Option String) (r : StepResult V)
      → result_new s o m ≡ ok r
      → (is_in_progress r.status ≡ false) × (is_failed r.status ≡ is_some r.error_message)
  unfolding result_new
  result_new_observable s o m r h = ground arith
