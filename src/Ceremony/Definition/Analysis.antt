-- ===== src/Ceremony/Definition/Analysis.antt =====
-- entities/ceremony_definition_analysis.rs: the findings on a definition, in the order in which
-- they are collected; value_objects/ceremony/ceremony_validation_finding.rs and
-- ceremony_validation_report.rs.
use underpass_choreographer.Shared.{
  Bool, true, false, ◌&&◌, ◌||◌, not, String, Option, none, some, List, [], ◌∷◌, ◌++◌, length, find,
  keep, elem, is_empty, nat_eq, if◌then◌else◌, ◌==◌,
}
use underpass_choreographer.Shared.Map.{Map, lookup, contains_key, values}
use underpass_choreographer.Shared.Result.{
  DomainError, not_found, invariant_violated, already_exists, empty_collection,
}
use underpass_choreographer.Ceremony.Guard.{
  CeremonyGuard, CeremonyRole, RoleAction, referenced_step_id,
}
use underpass_choreographer.Ceremony.Definition.Data.{
  CeremonyState, CeremonyStep, CeremonyTransition, is_initial, is_terminal,
}

pub data CeremonyValidationSeverity : Type 0 where
  error warning : CeremonyValidationSeverity

pub data CeremonyValidationLocus : Type 0 where
  definition : CeremonyValidationLocus
  input output state : String → CeremonyValidationLocus
  transition : String → String → CeremonyValidationLocus
  step guard role : String → CeremonyValidationLocus

pub record CeremonyValidationFinding : Type 0 where
  pub severity : CeremonyValidationSeverity
  pub locus : CeremonyValidationLocus
  pub defect : DomainError

abbrev pub Findings : Type 0
Findings = List CeremonyValidationFinding

abbrev pub severity_is_error : CeremonyValidationSeverity → Bool
severity_is_error error = true
severity_is_error warning = false

abbrev pub is_blocking : CeremonyValidationFinding → Bool
is_blocking f = severity_is_error f.severity

-- `CeremonyValidationReport::first_error`
abbrev pub first_error : Findings → Option CeremonyValidationFinding
first_error fs = find is_blocking fs

abbrev pub blocking : CeremonyValidationLocus → DomainError → CeremonyValidationFinding
blocking locus defect = record { severity = error; locus = locus; defect = defect }

abbrev pub advisory : CeremonyValidationLocus → DomainError → CeremonyValidationFinding
advisory locus defect = record { severity = warning; locus = locus; defect = defect }

unfoldable pub initial_state_findings : Map CeremonyState → Findings
initial_state_findings states =
    if is_empty states
    then blocking definition (empty_collection "ceremony_definition.states") ∷ []
    else (if nat_eq (length (keep is_initial (values states))) 1
        then []
        else blocking definition
            (invariant_violated "ceremony definition must have exactly one initial state")
          ∷ [])

-- The inner loop over the required guards of one transition.
unfoldable pub required_guard_findings :
    Map CeremonyGuard → CeremonyValidationLocus → List String → Findings
required_guard_findings guards locus [] = []
required_guard_findings guards locus (g ∷ gs) =
    (if contains_key g guards
      then []
      else blocking locus (not_found "ceremony_transition.guard") ∷ [])
    ++ required_guard_findings guards locus gs

abbrev pub SeenPairs : Type 0
SeenPairs = List (String × String)

abbrev pub pair_seen : String → String → SeenPairs → Bool
pair_seen a b [] = false
pair_seen a b ((x, y) ∷ ps) = ((x == a) && (y == b)) || pair_seen a b ps

-- The body of the loop over the transitions, from the state that `from` names: the findings, and
-- the pairs of state and trigger that were seen. Each `continue` is a branch that returns.
unfoldable pub transition_checks :
    Option CeremonyState
    → Map CeremonyState
    → Map CeremonyGuard
    → CeremonyTransition
    → SeenPairs
    → Findings × SeenPairs
unfolding required_guard_findings
transition_checks none states guards t seen =
    (blocking (transition t.from t.trigger) (not_found "ceremony_transition.from_state") ∷ [], seen)
transition_checks (some from) states guards t seen =
    if not (contains_key t.to states)
    then (blocking locus (not_found "ceremony_transition.to_state") ∷ [], seen)
    else (if is_terminal from
        then (
          blocking locus
                (invariant_violated "terminal ceremony states cannot have outgoing transitions")
              ∷ [],
          seen,
        )
        else (if pair_seen t.from t.trigger seen
            then (blocking locus (already_exists "ceremony_transition.state_trigger") ∷ [], seen)
            else (
              required_guard_findings guards locus t.required_guards,
              (t.from, t.trigger) ∷ seen,
            )))
  where
    locus : CeremonyValidationLocus
    locus = transition t.from t.trigger

unfoldable pub transition_findings :
    Map CeremonyState → Map CeremonyGuard → List CeremonyTransition → SeenPairs → Findings
unfolding transition_checks
transition_findings states guards [] seen = []
transition_findings states guards (t ∷ ts) seen =
    let (found, seen') = transition_checks (lookup t.from states) states guards t seen in
    found ++ transition_findings states guards ts seen'

-- The body of the loop over the steps, from the state that owns the step.
abbrev pub step_checks : String → Option CeremonyState → Findings
step_checks step_id none = blocking (step step_id) (not_found "ceremony_step.state") ∷ []
step_checks step_id (some s) =
    if is_terminal s
    then blocking (step step_id)
        (invariant_violated "terminal ceremony states cannot own executable steps")
      ∷ []
    else []

unfoldable pub step_findings : {V : Type 0} → Map CeremonyState → Map (CeremonyStep V) → Findings
step_findings states [] = []
step_findings states ((step_id, s) ∷ steps) =
    step_checks step_id (lookup s.state_id states) ++ step_findings states steps

abbrev pub guard_checks : {V : Type 0} → Map (CeremonyStep V) → String → Option String → Findings
guard_checks steps guard_name none = []
guard_checks steps guard_name (some step_id) =
    if contains_key step_id steps
    then []
    else blocking (guard guard_name) (not_found "ceremony_guard.step") ∷ []

unfoldable pub guard_findings : {V : Type 0} → Map (CeremonyStep V) → Map CeremonyGuard → Findings
guard_findings steps [] = []
guard_findings steps ((guard_name, g) ∷ guards) =
    guard_checks steps guard_name (referenced_step_id g.condition) ++ guard_findings steps guards

-- The two `if let` of the loop over a role's actions; an action is of one kind.
abbrev pub action_checks :
    {V : Type 0} → Map (CeremonyStep V) → List String → String → RoleAction → Findings
action_checks steps triggers role_id (RoleAction.step step_id) =
    if contains_key step_id steps
    then []
    else blocking (role role_id) (not_found "ceremony_role.step_action") ∷ []
action_checks steps triggers role_id (RoleAction.transition trigger) =
    if elem trigger triggers
    then []
    else blocking (role role_id) (not_found "ceremony_role.transition_action") ∷ []
action_checks steps triggers role_id RoleAction.request_intervention = []
action_checks steps triggers role_id RoleAction.respond_to_intervention = []

unfoldable pub action_findings :
    {V : Type 0} → Map (CeremonyStep V) → List String → String → List RoleAction → Findings
action_findings steps triggers role_id [] = []
action_findings steps triggers role_id (a ∷ actions) =
    action_checks steps triggers role_id a ++ action_findings steps triggers role_id actions

unfoldable pub role_findings :
    {V : Type 0} → Map (CeremonyStep V) → List String → Map CeremonyRole → Findings
unfolding action_findings
role_findings steps triggers [] = []
role_findings steps triggers ((role_id, r) ∷ roles) =
    action_findings steps triggers role_id r.allowed_actions ++ role_findings steps triggers roles
