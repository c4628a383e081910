-- ===== src/Tests/Runs.antt =====
-- The run of a ceremony from its opening to its end.
use underpass_choreographer.Shared.{
  ℕ, ◌≡◌, refl, String, Bool, true, Option, none, some, [], ◌∷◌, trim, trim_start, trim_end,
  is_whitespace,
}
use underpass_choreographer.Shared.Result.{Result, ok}
use underpass_choreographer.Ceremony.Step.Lease.{acquire, lease_new}
use underpass_choreographer.Ceremony.Step.Record.{
  record_pending, can_be_started_at, next_attempt_for_start, next, attempt_new, allows_attempt,
  with_started, with_result,
}
use underpass_choreographer.Ceremony.Guard.{allows, is_satisfied}
use underpass_choreographer.Ceremony.Definition.Data.{
  CeremonyDefinition, initial_state_id, is_terminal_state, role_id_for_step, role_for_action,
  role_allows, next_satisfied_transition, available_transitions, guards_are_satisfied,
  role_id_for_transition, transition_for_trigger,
}
use underpass_choreographer.Ceremony.Instance.Data.{
  AuditActorKind, is_completed, start, is_terminal, matches_definition, require_role,
  require_definition,
}
use underpass_choreographer.Ceremony.Instance.Steps.{start_step_as, start_step, apply_step_result}
use underpass_choreographer.Ceremony.Instance.Moves.{apply_transition_as, move_on}
use underpass_choreographer.Audit.Bytes.{write_field, write_optional}
use underpass_choreographer.Audit.Record.{first_record, following, seal, compute_hash, canonical}
use underpass_choreographer.Services.Journal.{load, open_session, store_session, commit_session}
use underpass_choreographer.Services.Facts.{
  ceremony_started, actor_new, fact, event_id_new, validate_id, step_started, step_fact,
  step_finished, transition_applied,
}
use underpass_choreographer.Store.Data.{
  Store, ExpectedRevision, commit_new, matches, resulting_revision,
}
use underpass_choreographer.Store.Operations.{
  instance_of, commit, commit_entry, seal_facts, record_behind,
}
use underpass_choreographer.Store.Requests.{run_all}
use underpass_choreographer.Running.Data.{
  RunCeremonyInput, Progress, steps_in_declaration_order, idempotency_key_new, handled,
}
use underpass_choreographer.Running.Preparing.{
  Reading, Surroundings, taken_step, reread_step, finished_step, traced, moved_session,
}
use underpass_choreographer.Running.Driver.{
  run_ceremony, open_and_run, run_loop, run_steps, take_step, run_step, claim_step, handle_step,
  finish_step, move_session,
}
use underpass_choreographer.Running.Finished.{run_ends_completed}
use underpass_choreographer.Tests.Sample.{flag_json, session, essay, done}
use underpass_choreographer.Tests.Journals.{plain}

abbrev decimal : ℕ → String
decimal n = "n"

-- The ceremony of the tests without its human approval.
abbrev pub letter : CeremonyDefinition Bool
letter = record essay {
  transitions =
      record { from = "draft"; to = "review"; trigger = "submit"; required_guards = "written" ∷ [] }
      ∷ record { from = "review"; to = "sealed"; trigger = "accept"; required_guards = [] }
      ∷ [];
}

abbrev times : Reading → ℕ
times Reading.at_start = 10
times (Reading.at_claim n) = 20
times (Reading.at_result n) = 30
times (Reading.at_move n) = 40

-- Handlers that do the work, while nothing else happens to the store.
abbrev office : Surroundings Bool
office = record {
  clock = times;
  last_time = 1000000000000;
  decimal = decimal;
  describe = λ e. "error";
  handler = λ request st. (st, ok done);
  save_definition = λ d. ok tt;
  reads_transcript = λ n. ok tt;
  appends_transcript = λ n. ok tt;
}

abbrev order : RunCeremonyInput Bool
order = record {
  id = "c-1";
  definition = letter;
  context = [];
  lease_owner_id = "w-1";
  lease_ttl = 5;
  actor_id = "w-1";
  actor_kind = AuditActorKind.engine;
}

abbrev answer : Option (Store Bool × Result (Progress Bool))
answer = run_ceremony office order [] (run_all [] [])

abbrev store_after : Option (Store Bool × Result (Progress Bool)) → Store Bool
store_after none = []
store_after (some (st, r)) = st

abbrev nowhere : Progress Bool
nowhere = record {
  current = record { session = session; expected = ExpectedRevision.new };
  traces = [];
  transcript = [];
}

abbrev progress_of : Option (Store Bool × Result (Progress Bool)) → Progress Bool
progress_of (some (st, ok q)) = q
progress_of _ = nowhere

letter_runs : answer ≡ some (store_after answer, ok (progress_of answer))
unfolding run_ceremony load start initial_state_id steps_in_declaration_order open_and_run
    ceremony_started actor_new fact event_id_new validate_id trim trim_start trim_end is_whitespace
    open_session store_session commit_new commit commit_entry matches resulting_revision seal_facts
    record_behind first_record following seal compute_hash canonical write_field write_optional
    run_loop is_completed is_terminal matches_definition is_terminal_state record_pending run_steps
    take_step role_id_for_step role_for_action run_step claim_step taken_step idempotency_key_new
    acquire lease_new start_step_as start_step require_role require_definition role_allows
    can_be_started_at next_attempt_for_start next attempt_new allows_attempt with_started
    step_started step_fact commit_session handle_step handled finish_step reread_step finished_step
    apply_step_result with_result step_finished traced move_session moved_session
    next_satisfied_transition available_transitions guards_are_satisfied is_satisfied
    role_id_for_transition apply_transition_as move_on transition_for_trigger transition_applied
    run_all allows
letter_runs = refl

run_ends_completed_example :
    (is_completed letter (progress_of answer).current.session ≡ true)
    × (instance_of (progress_of answer).current.session.id (store_after answer)
        ≡ some (progress_of answer).current.session)
run_ends_completed_example =
    run_ends_completed office order [] (run_all [] []) (store_after answer) (progress_of answer)
      letter_runs
