-- ===== src/Running/Preparing.antt =====
-- What a run of crates/choreo-app/src/usecases/run_ceremony_use_case.rs works out between its commits.
use underpass_choreographer.Shared.{
  length, ℕ, ◌+◌, String, List, [], ◌∷◌, ◌++◌, format_text, ⊤, if◌then◌else◌,
}
use underpass_choreographer.Shared.Map.{lookup}
use underpass_choreographer.Shared.Result.{
  DomainError, Result, ok, err, invariant_violated, not_found, ok_or, ◌>>=◌, ◌>>◌,
}
use underpass_choreographer.Shared.Action.{Action}
use underpass_choreographer.Ceremony.Attributes.{Json}
use underpass_choreographer.Ceremony.Step.Lease.{Time, acquire}
use underpass_choreographer.Ceremony.Step.Record.{StepAttempt, StepResult, is_success}
use underpass_choreographer.Ceremony.Definition.Data.{
  CeremonyDefinition, CeremonyStep, role_id_for_transition, next_satisfied_transition,
}
use underpass_choreographer.Ceremony.Instance.Data.{CeremonyInstance}
use underpass_choreographer.Ceremony.Instance.Steps.{start_step_as, apply_step_result}
use underpass_choreographer.Ceremony.Instance.Moves.{apply_transition_as}
use underpass_choreographer.Audit.Record.{AuditFact}
use underpass_choreographer.Store.Data.{Store}
use underpass_choreographer.Services.Journal.{LoadedSession, load}
use underpass_choreographer.Services.Facts.{step_started, step_finished, transition_applied}
use underpass_choreographer.Running.Data.{
  RunCeremonyInput, Progress, CeremonyStepHandlerRequest, idempotency_key_new,
}

-- The moments at which a run reads the clock, apart from its metrics: at the start, when it
-- takes a step and when it has its result, each by the number of traces before, and when it
-- moves on, by the iterations that are left.
pub data Reading : Type 0 where
  at_start : Reading
  at_claim at_result at_move : ℕ → Reading

-- What a run uses of its surroundings. A handler may take its time, in which the store may change.
-- The transcript store answers a reading, or takes a contribution, or fails, by the number of traces
-- before.
pub record Surroundings (V : Type 0) : Type 0 where
  pub clock : Reading → Time
  pub last_time : Time
  pub decimal : ℕ → String
  pub describe : DomainError → String
  pub handler : CeremonyStepHandlerRequest V → Action (Store V) (StepResult V)
  pub save_definition : CeremonyDefinition V → Result ⊤
  pub reads_transcript : ℕ → Result ⊤
  pub appends_transcript : ℕ → Result ⊤

module _ {V : Type 0} ⦃j : Json V⦄ (w : Surroundings V) (input : RunCeremonyInput V) where
  -- A method of the instance, applied to the loaded session.
  abbrev on_session :
      {A : Type 0} → Action (CeremonyInstance V) A → LoadedSession V → Result (LoadedSession V × A)
  on_session m s =
      let (moved, r) = m s.session in
      elim r [ err e ↦ err e | ok a ↦ ok (record s { session = moved }, a) ]

  -- What `run_step` works out before its first commit: the step, its attempt, the session with the
  -- lease, and the fact.
  unfoldable pub taken_step :
      LoadedSession V
      → String
      → String
      → ℕ
      → Result (CeremonyStep V × StepAttempt × LoadedSession V × AuditFact)
  unfolding idempotency_key_new acquire start_step_as step_started
  taken_step s role_id step_id trace_index = do
    step ← ok_or (lookup step_id input.definition.steps) (not_found "ceremony_step")
    let now = w.clock (Reading.at_claim trace_index)
    key ←
        idempotency_key_new
          (format_text (s.session.id ∷ ":" ∷ step_id ∷ ":" ∷ w.decimal (trace_index + 1) ∷ []))
    lease ← acquire w.last_time input.lease_owner_id key now input.lease_ttl
    (taken, attempt) ← on_session (start_step_as input.definition role_id step_id lease now) s
    claimed ← step_started w.decimal taken.session step_id attempt role_id input.actor_kind now
    ok (step, attempt, taken, claimed)

  -- What it works out of the session as it is read again, for its second commit.
  unfoldable pub finished_step :
      LoadedSession V
      → String
      → String
      → ℕ
      → StepAttempt
      → StepResult V
      → Result (LoadedSession V × AuditFact)
  unfolding apply_step_result step_finished
  finished_step again role_id step_id trace_index attempt result = do
    let finished_at = w.clock (Reading.at_result trace_index)
    (finished, done) ←
        on_session (apply_step_result input.definition step_id result finished_at) again
    noted ←
        step_finished w.decimal finished.session step_id attempt result role_id input.actor_kind
          finished_at
    ok (finished, noted)

  -- The same from the store. `journal.load` reads the revision and the instance with nothing in
  -- between.
  unfoldable pub reread_step :
      String
      → String
      → String
      → ℕ
      → StepAttempt
      → StepResult V
      → Store V
      → Result (LoadedSession V × AuditFact)
  unfolding load finished_step
  reread_step id role_id step_id trace_index attempt result st = do
    again ← load id st st
    finished_step again role_id step_id trace_index attempt result

  -- What follows a step's run: its contribution and its trace, or the end of the run.
  unfoldable pub traced :
      String
      → String
      → String
      → Progress V
      → LoadedSession V × StepAttempt × StepResult V
      → Result (Progress V)
  traced state_id step_id role_id q (moved, attempt, result) =
      if is_success result.status
      then (w.appends_transcript (length q.traces)
          >> ok (record {
            current = moved;
            traces =
                q.traces
                ++ record {
                  state_id = state_id;
                  step_id = step_id;
                  role_id = role_id;
                  attempt = attempt;
                  status = result.status;
                  output = result.output;
                }
                  ∷ [];
            transcript =
                q.transcript
                ++ record { step_id = step_id; role_id = role_id; output = result.output } ∷ [];
          }))
      else err (invariant_violated "ceremony step did not complete successfully")

  -- The session after its move, with the facts of it.
  unfoldable pub moved_session :
      ℕ → String → LoadedSession V → Result (LoadedSession V × List AuditFact)
  unfolding next_satisfied_transition role_id_for_transition apply_transition_as transition_applied
  moved_session left state_id s = do
    t ←
        ok_or
          (next_satisfied_transition input.definition state_id s.session.step_records
            s.session.context)
          (invariant_violated "no satisfied ceremony transition is available")
    role_id ← role_id_for_transition input.definition t.trigger
    let now = w.clock (Reading.at_move left)
    (moved, to) ← on_session (apply_transition_as input.definition role_id t.trigger now) s
    facts ← transition_applied w.decimal moved.session input.definition role_id input.actor_kind now
    ok (moved, facts)
