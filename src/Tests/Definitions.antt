-- ===== src/Tests/Definitions.antt =====
-- The ceremony of the tests is built, and is well formed.
use underpass_choreographer.Shared.{elem, true, ◌≡◌, refl, ◌↔◌, none, []}
use underpass_choreographer.Shared.Result.{ok}
use underpass_choreographer.Ceremony.Definition.Analysis.{
  initial_state_findings, transition_findings, step_findings, guard_findings, role_findings,
}
use underpass_choreographer.Ceremony.Definition.Reachability.{
  states_reachable_from, states_that_reach_a_terminal, terminal_ids,
}
use underpass_choreographer.Ceremony.Definition.New.{
  reachability_findings, sole_initial_state_id, validate, definition_new, assemble, collect,
  collect_steps, analyze,
}
use underpass_choreographer.Ceremony.Definition.Reached.{Reaches, states_reachable_from_iff}
use underpass_choreographer.Ceremony.Definition.Finishing.{
  Finishes, states_that_reach_a_terminal_iff,
}
use underpass_choreographer.Ceremony.Definition.WellFormed.{WellFormed}
use underpass_choreographer.Ceremony.Definition.Validate.{validate_iff}
use underpass_choreographer.Ceremony.Definition.Built.{IsBuilt, definition_new-IsBuilt}
use underpass_choreographer.Tests.Sample.{essay, states, transitions, steps, guards, roles}

pub essay_built :
    definition_new "essay" "1" none [] [] states transitions steps guards roles ≡ ok essay
unfolding definition_new assemble collect collect_steps validate analyze initial_state_findings
    transition_findings step_findings guard_findings role_findings reachability_findings
    sole_initial_state_id states_reachable_from states_that_reach_a_terminal
essay_built = refl

pub essay-IsBuilt : IsBuilt essay
essay-IsBuilt =
    definition_new-IsBuilt "essay" "1" none [] [] states transitions steps guards roles essay_built

validate_iff_example : (validate essay ≡ ok tt) ↔ WellFormed essay
validate_iff_example = validate_iff essay

definition_new-IsBuilt_example : IsBuilt essay
definition_new-IsBuilt_example =
    definition_new-IsBuilt "essay" "1" none [] [] states transitions steps guards roles {d = essay}
      essay_built

states_reachable_from_iff_example :
    (elem "sealed" (states_reachable_from transitions "draft") ≡ true)
    ↔ Reaches transitions "draft" "sealed"
states_reachable_from_iff_example = states_reachable_from_iff transitions "draft" "sealed"

states_that_reach_a_terminal_iff_example :
    (elem "draft" (states_that_reach_a_terminal essay.states transitions) ≡ true)
    ↔ Finishes transitions (terminal_ids essay.states) "draft"
states_that_reach_a_terminal_iff_example =
    states_that_reach_a_terminal_iff essay.states transitions "draft"
