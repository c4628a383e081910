-- ===== src/Ceremony/Definition/WellFormed.antt =====
-- What a ceremony definition must be: the conditions that entities/ceremony_definition_analysis.rs
-- looks for, stated without reference to how they are looked for.
use underpass_choreographer.Shared.{
  ◌≡◌, true, false, String, Option, none, some, List, [], ◌∷◌, length, keep, All, elem, option_any,
}
use underpass_choreographer.Shared.Map.{Map, lookup, contains_key, values}
use underpass_choreographer.Ceremony.Guard.{CeremonyGuard, RoleAction, referenced_step_id}
use underpass_choreographer.Ceremony.Definition.Data.{
  CeremonyState, CeremonyStep, CeremonyTransition, CeremonyDefinition, is_initial, is_terminal,
  triggers_of,
}

-- The state is declared, and is no terminal one.
abbrev pub IsLive : Map CeremonyState → String → Type 0
IsLive states k =
    (contains_key k states ≡ true) × (option_any is_terminal (lookup k states) ≡ false)

abbrev pub IsDeclared {ℓ} : {A : Type ℓ} → Map A → String → Type 0
IsDeclared m k = contains_key k m ≡ true

-- A transition leads from a live state to a declared one, and requires declared guards only.
abbrev pub TransitionIsSound : Map CeremonyState → Map CeremonyGuard → CeremonyTransition → Type 0
TransitionIsSound states guards t =
    IsLive states t.from × IsDeclared states t.to × All (IsDeclared guards) t.required_guards

abbrev pub Differ : CeremonyTransition → CeremonyTransition → Type 0
Differ t u = ¬ ((u.from ≡ t.from) × (u.trigger ≡ t.trigger))

-- No two transitions leave one state by one trigger.
abbrev pub IsDeterministic : List CeremonyTransition → Type 0
IsDeterministic [] = Unit
IsDeterministic (t ∷ ts) = All (Differ t) ts × IsDeterministic ts

abbrev pub GuardIsSound : {V : Type 0} → Map (CeremonyStep V) → Option String → Type 0
GuardIsSound steps none = Unit
GuardIsSound steps (some step_id) = IsDeclared steps step_id

abbrev pub ActionIsSound :
    {V : Type 0} → Map (CeremonyStep V) → List CeremonyTransition → RoleAction → Type 0
ActionIsSound steps ts (RoleAction.step step_id) = IsDeclared steps step_id
ActionIsSound steps ts (RoleAction.transition trigger) = elem trigger (triggers_of ts) ≡ true
ActionIsSound steps ts RoleAction.request_intervention = Unit
ActionIsSound steps ts RoleAction.respond_to_intervention = Unit

module _ {V : Type 0} where
  abbrev pub StepIsSound : Map CeremonyState → String × CeremonyStep V → Type 0
  StepIsSound states (_, s) = IsLive states s.state_id

  abbrev pub StepsAreSound : Map CeremonyState → Map (CeremonyStep V) → Type 0
  StepsAreSound states steps = All (StepIsSound states) steps

  -- A definition that can be run: one initial state, a sound and deterministic graph, steps that
  -- live states own, guards and roles that name what is declared.
  pub record WellFormed (d : CeremonyDefinition V) : Type 0 where
    pub one_initial : length (keep is_initial (values d.states)) ≡ 1
    pub transitions_sound : All (TransitionIsSound d.states d.guards) d.transitions
    pub deterministic : IsDeterministic d.transitions
    pub steps_sound : StepsAreSound d.states d.steps
    pub guards_sound :
        All (λ g. GuardIsSound d.steps (referenced_step_id g.condition)) (values d.guards)
    pub roles_sound :
        All (λ r. All (ActionIsSound d.steps d.transitions) r.allowed_actions) (values d.roles)
