-- ===== src/Ceremony/Definition/Data.antt =====
-- entities/ceremony_definition.rs: the aggregate and the queries on it, with
-- value_objects/ceremony/ceremony_state.rs, ceremony_state_kind.rs, ceremony_step.rs and
-- ceremony_transition.rs.
use underpass_choreographer.Shared.{
  Bool, true, false, ◌&&◌, String, Option, none, some, List, [], ◌∷◌, all, find, keep, option_any,
  if◌then◌else◌, ◌==◌,
}
use underpass_choreographer.Shared.Map.{Map, lookup, values}
use underpass_choreographer.Shared.Result.{Result, ok, invariant_violated, ok_or, ◌>>=◌}
use underpass_choreographer.Ceremony.Attributes.{Attributes, Json}
use underpass_choreographer.Ceremony.Step.Lease.{DurationMs}
use underpass_choreographer.Ceremony.Step.Record.{StepExecutionRecord, RetryPolicy}
use underpass_choreographer.Ceremony.Guard.{
  CeremonyContext, CeremonyGuard, CeremonyRole, RoleAction, allows, is_satisfied,
}

pub data CeremonyStateKind : Type 0 where
  initial intermediate terminal : CeremonyStateKind

abbrev pub kind_is_initial : CeremonyStateKind → Bool
kind_is_initial initial = true
kind_is_initial _ = false

abbrev pub kind_is_terminal : CeremonyStateKind → Bool
kind_is_terminal terminal = true
kind_is_terminal _ = false

pub record CeremonyState : Type 0 where
  pub id : String
  pub kind : CeremonyStateKind

abbrev pub is_initial : CeremonyState → Bool
is_initial s = kind_is_initial s.kind

abbrev pub is_terminal : CeremonyState → Bool
is_terminal s = kind_is_terminal s.kind

-- `required_guards` is a set: its members in order.
pub record CeremonyTransition : Type 0 where
  pub from : String
  pub to : String
  pub trigger : String
  pub required_guards : List String

-- The triggers that some transition has.
abbrev pub triggers_of : List CeremonyTransition → List String
triggers_of [] = []
triggers_of (t ∷ ts) = t.trigger ∷ triggers_of ts

pub record CeremonyStep (V : Type 0) : Type 0 where
  pub id : String
  pub state_id : String
  pub handler_kind : String
  pub handler_config : Attributes V
  pub retry_policy : RetryPolicy
  pub timeout : Option DurationMs

pub data InputRequirement : Type 0 where
  required optional : InputRequirement

pub record CeremonyInputDefinition : Type 0 where
  pub name : String
  pub requirement : InputRequirement

pub record CeremonyOutputDefinition : Type 0 where
  pub name : String

pub record CeremonyDefinition (V : Type 0) : Type 0 where
  pub name : String
  pub version : String
  pub description : Option String
  pub inputs : Map CeremonyInputDefinition
  pub outputs : Map CeremonyOutputDefinition
  pub states : Map CeremonyState
  pub transitions : List CeremonyTransition
  pub steps : Map (CeremonyStep V)
  pub step_order : List String
  pub guards : Map CeremonyGuard
  pub roles : Map CeremonyRole

-- `values().find(is_initial)`: `none` is the `expect` that a valid definition never meets.
abbrev pub first_initial : List CeremonyState → Option String
first_initial [] = none
first_initial (s ∷ ss) = if is_initial s then some s.id else first_initial ss

module _ {V : Type 0} where
  unfoldable pub initial_state_id : CeremonyDefinition V → Option String
  initial_state_id d = first_initial (values d.states)

  unfoldable pub is_terminal_state : CeremonyDefinition V → String → Bool
  is_terminal_state d state_id = option_any is_terminal (lookup state_id d.states)

  unfoldable pub transition_for_trigger :
      CeremonyDefinition V → String → String → Option CeremonyTransition
  transition_for_trigger d state_id trigger =
      find (λ t. (t.from == state_id) && (t.trigger == trigger)) d.transitions

  unfoldable pub available_transitions : CeremonyDefinition V → String → List CeremonyTransition
  available_transitions d state_id = keep (λ t. t.from == state_id) d.transitions

  unfoldable pub role_allows : CeremonyDefinition V → String → RoleAction → Bool
  role_allows d role_id action = option_any (λ r. allows r action) (lookup role_id d.roles)

  unfoldable pub role_for_action : CeremonyDefinition V → RoleAction → Option CeremonyRole
  role_for_action d action = find (λ r. allows r action) (values d.roles)

  -- `role_id_for_step`
  unfoldable pub role_id_for_step : CeremonyDefinition V → String → Result String
  unfolding role_for_action
  role_id_for_step d step_id = do
    r ←
        ok_or (role_for_action d (RoleAction.step step_id))
          (invariant_violated "no ceremony role can execute step")
    ok r.id

  -- `role_id_for_transition`
  unfoldable pub role_id_for_transition : CeremonyDefinition V → String → Result String
  unfolding role_for_action
  role_id_for_transition d trigger = do
    r ←
        ok_or (role_for_action d (RoleAction.transition trigger))
          (invariant_violated "no ceremony role can apply transition")
    ok r.id

module _ {V : Type 0} ⦃j : Json V⦄ where
  unfoldable pub guards_are_satisfied :
      CeremonyDefinition V
      → CeremonyTransition
      → Map (StepExecutionRecord V)
      → CeremonyContext V
      → Bool
  guards_are_satisfied d t records context =
      all
        (λ guard_name.
          option_any (λ g. is_satisfied g records context) (lookup guard_name d.guards))
        t.required_guards

  unfoldable pub next_satisfied_transition :
      CeremonyDefinition V
      → String
      → Map (StepExecutionRecord V)
      → CeremonyContext V
      → Option CeremonyTransition
  unfolding available_transitions guards_are_satisfied
  next_satisfied_transition d state_id records context =
      find (λ t. guards_are_satisfied d t records context) (available_transitions d state_id)
