-- ===== src/Running/Driver.antt =====
-- The loop of crates/choreo-app/src/usecases/run_ceremony_use_case.rs over the in-memory store.
-- Metrics are left out.
use underpass_choreographer.Shared.{
  ℕ, zero, suc, ◌+◌, Bool, true, false, Option, none, some, String, List, [], ◌∷◌, keep, map,
  length, option_any, ◌==◌,
}
use underpass_choreographer.Shared.Map.{lookup}
use underpass_choreographer.Shared.Result.{
  DomainError, Result, ok, err, invariant_violated, already_exists,
}
use underpass_choreographer.Shared.Action.{Action, pure, lift, check, ◌>>=◌, ◌>>◌}
use underpass_choreographer.Ceremony.Attributes.{Json}
use underpass_choreographer.Ceremony.Step.Record.{StepAttempt, StepResult, is_success}
use underpass_choreographer.Ceremony.Definition.Data.{CeremonyStep, role_id_for_step}
use underpass_choreographer.Ceremony.Instance.Data.{CeremonyInstance, is_completed, start}
use underpass_choreographer.Audit.Record.{Platform}
use underpass_choreographer.Store.Data.{Store}
use underpass_choreographer.Services.Journal.{LoadedSession, load, commit_session, open_session}
use underpass_choreographer.Services.Facts.{ceremony_started}
use underpass_choreographer.Running.Data.{
  RunCeremonyInput, Progress, CeremonyStepHandlerRequest, CeremonyStepContribution, bound_specialty,
  handled, steps_in_declaration_order,
}
use underpass_choreographer.Running.Preparing.{
  Reading, Surroundings, taken_step, reread_step, traced, moved_session,
}

module _ {V : Type 0} ⦃j : Json V⦄ ⦃p : Platform⦄ (w : Surroundings V)
    (input : RunCeremonyInput V) where
  -- `execute_handler`
  abbrev pub execute_handler : CeremonyStepHandlerRequest V → Action (Store V) (StepResult V)
  execute_handler request st = let (st', r) = w.handler request st in (st', handled w.describe r)

  -- Up to the first commit, made before the handler runs.
  unfoldable pub claim_step :
      LoadedSession V
      → String
      → String
      → ℕ
      → Action (Store V) (CeremonyStep V × StepAttempt × LoadedSession V)
  unfolding taken_step commit_session
  claim_step s role_id step_id trace_index = do
    (step, attempt, taken, claimed) ← lift (taken_step w input s role_id step_id trace_index)
    held ← commit_session taken (claimed ∷ [])
    pure (step, attempt, held)

  -- From the second reading of the session on. `journal.load` reads the revision and the instance
  -- with nothing in between.
  unfoldable pub finish_step :
      String
      → String
      → String
      → ℕ
      → StepAttempt
      → StepResult V
      → Action (Store V) (LoadedSession V × StepAttempt × StepResult V)
  unfolding reread_step commit_session
  finish_step id role_id step_id trace_index attempt result = do
    (finished, noted) ← check (reread_step w input id role_id step_id trace_index attempt result)
    stored ← commit_session finished (noted ∷ [])
    pure (stored, attempt, result)

  abbrev pub step_request :
      LoadedSession V
      → CeremonyStep V
      → StepAttempt
      → String
      → List (CeremonyStepContribution V)
      → CeremonyStepHandlerRequest V
  step_request held step attempt role_id transcript = record {
    ceremony_id = held.session.id;
    definition_name = held.session.definition_name;
    definition_version = held.session.definition_version;
    state_id = held.session.current_state;
    step_id = step.id;
    handler_kind = step.handler_kind;
    handler_config = step.handler_config;
    context = held.session.context;
    attempt = attempt;
    transcript = transcript;
    role_id = some role_id;
    bound_specialty = bound_specialty role_id held.session;
  }

  -- From the call of the handler on.
  unfoldable pub handle_step :
      String
      → String
      → ℕ
      → List (CeremonyStepContribution V)
      → CeremonyStep V × StepAttempt × LoadedSession V
      → Action (Store V) (LoadedSession V × StepAttempt × StepResult V)
  unfolding handled finish_step
  handle_step role_id step_id trace_index transcript (step, attempt, held) =
      execute_handler (step_request held step attempt role_id transcript)
      >>= finish_step held.session.id role_id step_id trace_index attempt

  unfoldable pub run_step :
      LoadedSession V
      → String
      → String
      → ℕ
      → List (CeremonyStepContribution V)
      → Action (Store V) (LoadedSession V × StepAttempt × StepResult V)
  unfolding claim_step handle_step
  run_step s role_id step_id trace_index transcript =
      claim_step s role_id step_id trace_index
      >>= handle_step role_id step_id trace_index transcript

  abbrev pub already_done : String → Progress V → Bool
  already_done step_id q =
      option_any (λ r. is_success r.status) (lookup step_id q.current.session.step_records)

  -- One step that is not done yet.
  unfoldable pub take_step : String → String → Progress V → Action (Store V) (Progress V)
  unfolding role_id_for_step run_step traced
  take_step state_id step_id q = do
    role_id ← lift (role_id_for_step input.definition step_id)
    lift (w.reads_transcript (length q.traces))
    ran ← run_step q.current role_id step_id (length q.traces) q.transcript
    lift (traced w input state_id step_id role_id q ran)

  -- The loop over the steps of a state.
  unfoldable pub run_steps : String → List String → Progress V → Action (Store V) (Progress V)
  unfolding take_step
  run_steps state_id [] q = pure q
  run_steps state_id (k ∷ ks) q = elim (already_done k q) [
    | true ↦ run_steps state_id ks q
    | false ↦ take_step state_id k q >>= run_steps state_id ks
  ]

  unfoldable pub move_session : ℕ → String → Progress V → Action (Store V) (Progress V)
  unfolding moved_session commit_session
  move_session left state_id q = do
    (moved, facts) ← lift (moved_session w input left state_id q.current)
    stored ← commit_session moved facts
    pure (record q { current = stored })

  abbrev pub state_steps : List (CeremonyStep V) → String → List String
  state_steps steps state_id = map (λ s. s.id) (keep (λ s. s.state_id == state_id) steps)

  -- The loop; `steps` are in their declared order, and the first number is the iterations left.
  unfoldable pub run_loop : List (CeremonyStep V) → ℕ → Progress V → Action (Store V) (Progress V)
  unfolding run_steps move_session is_completed
  run_loop steps zero q =
      lift (err (invariant_violated "ceremony execution exceeded transition safety limit"))
  run_loop steps (suc n) q = elim (is_completed input.definition q.current.session) [
    | true ↦ pure q
    | false ↦ do
      r ←
          run_steps q.current.session.current_state
            (state_steps steps q.current.session.current_state) q
      elim (is_completed input.definition r.current.session) [
        | true ↦ pure r
        | false ↦ move_session n q.current.session.current_state r >>= run_loop steps n
      ]
  ]

  abbrev pub max_iterations : ℕ
  max_iterations = length input.definition.states + length input.definition.transitions + 1

  -- From the opening of the session on.
  unfoldable pub open_and_run :
      List (CeremonyStep V)
      → List (CeremonyStepContribution V)
      → CeremonyInstance V
      → Action (Store V) (Progress V)
  unfolding ceremony_started open_session run_loop
  open_and_run steps transcript opening = do
    started ←
        lift (ceremony_started opening input.actor_id input.actor_kind (w.clock Reading.at_start))
    session ← open_session opening (started ∷ [])
    run_loop steps max_iterations
        (record { current = session; traces = []; transcript = transcript })

  -- `execute`: the final session and the traces of `RunCeremonyOutput`, given what the transcript
  -- store holds of the ceremony; `none` is an `expect`, of the initial state or of the order of the
  -- steps, which no definition that was validated meets.
  unfoldable pub run_ceremony :
      List (CeremonyStepContribution V) → Store V → Option (Store V × Result (Progress V))
  unfolding load start steps_in_declaration_order open_and_run
  run_ceremony transcript st = elim (load input.id st st) [
    | ok found ↦ some (st, err (already_exists "ceremony_instance"))
    | err (DomainError.not_found what) ↦ elim (steps_in_declaration_order input.definition) [
      | none ↦ none
      | some steps ↦
          elim (start input.id input.definition input.context (w.clock Reading.at_start) none) [
            | none ↦ none
            | some opening ↦ some (
                (lift (w.save_definition input.definition) >> open_and_run steps transcript opening)
                  st)
          ]
    ]
    | err _ ↦ some (st, err (already_exists "ceremony_instance"))
  ]
