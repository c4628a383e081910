-- ===== src/Ceremony/Guard.antt =====
-- value_objects/ceremony/guard_condition.rs, ceremony_guard.rs, ceremony_context.rs,
-- role_action.rs and ceremony_role.rs.
use underpass_choreographer.Shared.{
  Bool, true, false, ◌&&◌, not, String, Option, none, some, List, any, all, is_empty, option_any,
  ◌==◌,
}
use underpass_choreographer.Shared.Map.{Map, lookup, insert, values}
use underpass_choreographer.Shared.Result.{Result, ok, empty_collection, ensure, ◌>>◌}
use underpass_choreographer.Ceremony.Attributes.{Attributes, Json, attributes_new}
use underpass_choreographer.Ceremony.Step.Record.{
  StepStatus, StepExecutionRecord, is_success, status_eq,
}

-- `CeremonyContext(Attributes)`
abbrev pub CeremonyContext : Type 0 → Type 0
CeremonyContext V = Attributes V

pub data GuardCondition : Type 0 where
  always : GuardCondition
  all_steps_completed : GuardCondition
  step_status : String → StepStatus → GuardCondition
  human_approval : GuardCondition

abbrev pub referenced_step_id : GuardCondition → Option String
referenced_step_id (step_status step_id _) = some step_id
referenced_step_id _ = none

abbrev pub is_human_approval : GuardCondition → Bool
is_human_approval human_approval = true
is_human_approval _ = false

pub record CeremonyGuard : Type 0 where
  pub name : String
  pub condition : GuardCondition

pub data RoleAction : Type 0 where
  step : String → RoleAction
  transition : String → RoleAction
  request_intervention : RoleAction
  respond_to_intervention : RoleAction

-- The derived equality, by which the set of a role's actions is searched.
abbrev pub action_eq : RoleAction → RoleAction → Bool
action_eq (step a) (step b) = a == b
action_eq (transition a) (transition b) = a == b
action_eq request_intervention request_intervention = true
action_eq respond_to_intervention respond_to_intervention = true
action_eq _ _ = false

abbrev pub action_step_id : RoleAction → Option String
action_step_id (step step_id) = some step_id
action_step_id _ = none

abbrev pub action_transition_trigger : RoleAction → Option String
action_transition_trigger (transition trigger) = some trigger
action_transition_trigger _ = none

pub record CeremonyRole : Type 0 where
  pub id : String
  pub allowed_actions : List RoleAction

-- `CeremonyRole::new`
unfoldable pub role_new : String → List RoleAction → Result CeremonyRole
role_new id allowed_actions = do
  ensure (not (is_empty allowed_actions)) (empty_collection "ceremony_role.allowed_actions")
  ok (record { id = id; allowed_actions = allowed_actions })

-- `CeremonyRole::allows`
unfoldable pub allows : CeremonyRole → RoleAction → Bool
allows r action = any (action_eq action) r.allowed_actions

module _ {V : Type 0} ⦃j : Json V⦄ where
  -- `CeremonyContext::with_guard_approval`
  unfoldable pub with_guard_approval : CeremonyContext V → String → Result (CeremonyContext V)
  with_guard_approval context guard_name =
      attributes_new (insert guard_name (j.of_bool true) context)

  abbrev read_approval : Option V → Bool
  read_approval none = false
  read_approval (some v) = option_any (λ b. b) (j.as_bool v)

  -- `CeremonyContext::is_guard_approved`
  unfoldable pub is_guard_approved : CeremonyContext V → String → Bool
  is_guard_approved context guard_name = read_approval (lookup guard_name context)

  -- The match of `is_satisfied` on the guard's condition.
  abbrev condition_holds :
      GuardCondition → String → Map (StepExecutionRecord V) → CeremonyContext V → Bool
  condition_holds always name records context = true
  condition_holds all_steps_completed name records context =
      not (is_empty records) && all (λ r. is_success r.status) (values records)
  condition_holds (step_status step_id status) name records context =
      option_any (λ r. status_eq r.status status) (lookup step_id records)
  condition_holds human_approval name records context = is_guard_approved context name

  -- `CeremonyGuard::is_satisfied`
  unfoldable pub is_satisfied :
      CeremonyGuard → Map (StepExecutionRecord V) → CeremonyContext V → Bool
  is_satisfied g records context = condition_holds g.condition g.name records context
