-- ===== src/Tests/Sessions.antt =====
-- A session on the ceremony of the tests, from its start to its end.
use underpass_choreographer.Shared.{
  List, ◌∷◌, [], ◌≡◌, refl, Bool, true, false, none, some, arith, is_whitespace,
}
use underpass_choreographer.Shared.Result.{is_ok}
use underpass_choreographer.Ceremony.Step.Lease.{Time, is_expired_at}
use underpass_choreographer.Ceremony.Step.Record.{
  can_be_started_at, record_pending, next_attempt_for_start, allows_attempt, with_started,
  with_result,
}
use underpass_choreographer.Ceremony.Definition.Data.{
  CeremonyTransition, is_terminal_state, guards_are_satisfied, transition_for_trigger, role_allows,
}
use underpass_choreographer.Ceremony.Instance.Data.{
  CeremonyInstance, is_terminal, matches_definition, require_role, require_active,
  require_declared_role,
}
use underpass_choreographer.Ceremony.Instance.Steps.{start_step, start_step_as, apply_step_result}
use underpass_choreographer.Ceremony.Instance.Commands.{Command, execute, run}
use underpass_choreographer.Ceremony.Instance.Atomic.{Keeps, execute-Keeps}
use underpass_choreographer.Ceremony.Instance.Placement.{IsPlaced, run-IsPlaced, stays, placement}
use underpass_choreographer.Ceremony.Instance.Terminal.{run_over}
use underpass_choreographer.Ceremony.Instance.Turns.{Turn, ledger, AllAreObservable}
use underpass_choreographer.Ceremony.Instance.Leases.{execute-Turn}
use underpass_choreographer.Ceremony.Instance.Held.{IsHeld, HasPolicies, open_at-IsHeld, run-IsHeld}
use underpass_choreographer.Ceremony.Instance.Exclusion.{
  Meanwhile, Leased, lease_excludes, key_starts_once,
}
use underpass_choreographer.Ceremony.Attributes.{attributes_new}
use underpass_choreographer.Ceremony.Guard.{
  GuardCondition, with_guard_approval, is_satisfied, is_guard_approved, allows,
}
use underpass_choreographer.Ceremony.Instance.Guards.{approve_guard}
use underpass_choreographer.Ceremony.Instance.Moves.{move_on, apply_transition, apply_transition_as}
use underpass_choreographer.Ceremony.Instance.Approvals.{
  IsBacked, approvals, approved_in, human_guards_hold,
}
use underpass_choreographer.Tests.Sample.{
  approved_life, flag_json, no_value, essay, session, lease, takeover, life,
}
use underpass_choreographer.Tests.Definitions.{essay-IsBuilt}

session-IsPlaced : IsPlaced essay "draft" session
unfolding matches_definition is_terminal_state
session-IsPlaced = record { named = refl; placed = refl; finished = refl; history = refl }

run-IsPlaced_example : IsPlaced essay "draft" (run no_value essay life session)
run-IsPlaced_example =
    run-IsPlaced essay essay-IsBuilt.well_formed "draft" no_value life session session-IsPlaced

stays_example :
    placement (execute no_value essay 20 (Command.start_step "write" lease) session).0
    ≡ placement session
stays_example = stays no_value essay 20 (Command.start_step "write" lease) session refl

execute-Keeps_example :
    Keeps session (execute no_value essay 20 (Command.apply_transition "submit") session)
execute-Keeps_example = execute-Keeps no_value essay 20 (Command.apply_transition "submit") session

abbrev sealed : CeremonyInstance Bool
sealed = record session { current_state = "sealed"; completed_at = some 75 }

sealed-is_terminal : is_terminal essay sealed ≡ true
unfolding is_terminal matches_definition is_terminal_state
sealed-is_terminal = refl

run_over_example : run no_value essay life sealed ≡ record sealed {
  reasons = (run no_value essay life sealed).reasons;
  updated_at = (run no_value essay life sealed).updated_at;
}
run_over_example = run_over essay essay-IsBuilt.well_formed no_value life sealed sealed-is_terminal

life-AllAreObservable : AllAreObservable life
life-AllAreObservable = (tt, (tt, (tt, (refl, (tt, (tt, (tt, (tt, (tt, (tt, tt))))))))))

essay-HasPolicies : HasPolicies essay
essay-HasPolicies k st h = ground (arith, h)

session-IsHeld : IsHeld essay (ledger session)
session-IsHeld = open_at-IsHeld "c-1" essay [] 10 none "draft" essay-HasPolicies

run-IsHeld_example : IsHeld essay (ledger (run no_value essay life session))
run-IsHeld_example = run-IsHeld no_value essay life session life-AllAreObservable session-IsHeld

execute-Turn_example :
    Turn essay 20
      (Command.start_step "write" lease)
      (ledger session)
      (is_ok (execute no_value essay 20 (Command.start_step "write" lease) session).1)
      (ledger (execute no_value essay 20 (Command.start_step "write" lease) session).0)
execute-Turn_example = execute-Turn no_value essay 20 (Command.start_step "write" lease) session

start_accepted : is_ok (start_step essay "write" lease 20 session).1 ≡ true
unfolding start_step is_terminal matches_definition is_terminal_state can_be_started_at
    record_pending next_attempt_for_start allows_attempt
start_accepted = refl

-- A second start and a move of the session, both under the lease.
abbrev meanwhile : List (Time × Command Bool)
meanwhile = (25, Command.start_step "write" takeover) ∷ (30, Command.apply_transition "submit") ∷ []

meanwhile-Meanwhile : Meanwhile "write" lease.expires_at meanwhile
meanwhile-Meanwhile = (omega arith, refl, (omega arith, refl, tt))

lease_excludes_example :
    Leased "write" lease
      (ledger (run no_value essay meanwhile (start_step essay "write" lease 20 session).0))
    × (is_ok
          (start_step essay "write" takeover 40
            (run no_value essay meanwhile (start_step essay "write" lease 20 session).0)).1
        ≡ false)
lease_excludes_example =
    lease_excludes no_value essay "write" lease takeover 20 40 session meanwhile start_accepted
      meanwhile-Meanwhile (omega arith)

key_starts_once_example :
    is_ok
      (start_step essay "write" lease 200
        (run no_value essay life (start_step essay "write" lease 20 session).0)).1
    ≡ false
key_starts_once_example =
    key_starts_once no_value essay "write" "write" lease lease 20 200 session life start_accepted
      life-AllAreObservable refl

-- The life ends sealed, by the two moves, with the author's takeover as the second attempt.
life_ends : (run no_value essay life session).current_state ≡ "sealed"
unfolding run execute start_step start_step_as apply_step_result approve_guard apply_transition
    apply_transition_as require_role require_active require_declared_role is_terminal
    matches_definition is_terminal_state can_be_started_at record_pending next_attempt_for_start
    allows_attempt with_started with_result is_expired_at with_guard_approval attributes_new
    guards_are_satisfied is_satisfied is_guard_approved transition_for_trigger role_allows allows
    is_whitespace
life_ends = refl

accept_accepted :
    is_ok (move_on essay "accept" none 75 (run no_value essay approved_life session)).1 ≡ true
unfolding move_on run execute start_step start_step_as apply_step_result approve_guard
    apply_transition apply_transition_as require_role require_active require_declared_role
    is_terminal matches_definition is_terminal_state can_be_started_at record_pending
    next_attempt_for_start allows_attempt with_started with_result is_expired_at with_guard_approval
    attributes_new guards_are_satisfied is_satisfied is_guard_approved transition_for_trigger
    role_allows allows is_whitespace
accept_accepted = refl

abbrev accept : CeremonyTransition
accept = record {
  from = "review";
  to = "sealed";
  trigger = "accept";
  required_guards = "approved" ∷ [];
}

accept_found :
    transition_for_trigger essay (run no_value essay approved_life session).current_state "accept"
    ≡ some accept
unfolding run execute start_step start_step_as apply_step_result approve_guard apply_transition
    apply_transition_as require_role require_active require_declared_role is_terminal
    matches_definition is_terminal_state can_be_started_at record_pending next_attempt_for_start
    allows_attempt with_started with_result is_expired_at with_guard_approval attributes_new
    guards_are_satisfied is_satisfied is_guard_approved transition_for_trigger role_allows allows
    is_whitespace
accept_found = refl

session-IsBacked : IsBacked (approvals session)
unfolding is_guard_approved
session-IsBacked g h = ground (arith, h)

human_guards_hold_example :
    approved_in "approved" (run no_value essay approved_life session).guard_approvals ≡ true
human_guards_hold_example =
    human_guards_hold no_value essay approved_life session "accept" none 75 accept "approved"
      (record { name = "approved"; condition = GuardCondition.human_approval }) essay-IsBuilt
      session-IsBacked accept_accepted accept_found refl refl refl
