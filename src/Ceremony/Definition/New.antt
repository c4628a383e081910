-- ===== src/Ceremony/Definition/New.antt =====
-- entities/ceremony_definition.rs: how a definition is built, with the part of
-- entities/ceremony_definition_analysis.rs that walks the graph.
use underpass_choreographer.Shared.{
  Bool, ◌&&◌, not, String, Option, none, some, List, [], ◌∷◌, ◌++◌, any, all, elem, if◌then◌else◌,
}
use underpass_choreographer.Shared.Map.{Map, insert, contains_key, values}
use underpass_choreographer.Shared.Result.{
  Result, DomainError, ok, err, invariant_violated, already_exists, ◌>>=◌, ◌>>◌,
}
use underpass_choreographer.Shared.{⊤}
use underpass_choreographer.Ceremony.Guard.{CeremonyGuard, CeremonyRole}
use underpass_choreographer.Ceremony.Definition.Data.{
  CeremonyState, CeremonyStep, CeremonyTransition, CeremonyDefinition, CeremonyInputDefinition,
  CeremonyOutputDefinition, is_initial, is_terminal, triggers_of,
}
use underpass_choreographer.Ceremony.Definition.Reachability.{
  states_reachable_from, states_that_reach_a_terminal,
}
use underpass_choreographer.Ceremony.Definition.Analysis.{
  Findings, CeremonyValidationFinding, advisory, first_error, definition, state,
  initial_state_findings, transition_findings, step_findings, guard_findings, role_findings,
}

-- The keys of the initial states, and `sole_initial_state_id`.
abbrev initial_ids : Map CeremonyState → List String
initial_ids [] = []
initial_ids ((k, s) ∷ m) = if is_initial s then k ∷ initial_ids m else initial_ids m

abbrev only : List String → Option String
only [] = none
only (k ∷ []) = some k
only (k ∷ _ ∷ _) = none

unfoldable pub sole_initial_state_id : Map CeremonyState → Option String
sole_initial_state_id states = only (initial_ids states)

unfoldable pub transition_endpoints_resolve : Map CeremonyState → List CeremonyTransition → Bool
transition_endpoints_resolve states ts =
    all (λ t. contains_key t.from states && contains_key t.to states) ts

-- The loop over the states, from what is reachable and what can finish.
unfoldable pub state_findings : List String → List String → Map CeremonyState → Findings
state_findings reachable can_finish [] = []
state_findings reachable can_finish ((k, _) ∷ m) =
    (if not (elem k reachable)
      then advisory (state k)
          (invariant_violated "ceremony state is unreachable from the initial state")
        ∷ []
      else (if not (elem k can_finish)
          then advisory (state k)
              (invariant_violated "no terminal state is reachable from this ceremony state")
            ∷ []
          else []))
    ++ state_findings reachable can_finish m

unfoldable pub reachability_findings :
    Option String → Map CeremonyState → List CeremonyTransition → Findings
unfolding state_findings transition_endpoints_resolve
reachability_findings none states ts = []
reachability_findings (some initial) states ts =
    if not (transition_endpoints_resolve states ts)
    then []
    else (if not (any is_terminal (values states))
        then advisory definition (invariant_violated "ceremony definition has no terminal state")
          ∷ []
        else state_findings (states_reachable_from ts initial)
            (states_that_reach_a_terminal states ts) states)

-- `map.insert(key, item).is_some()` is refused; one function for the loops of `collect_inputs`,
-- `collect_outputs`, `collect_states`, `collect_guards` and `collect_roles`.
unfoldable pub collect {ℓ} :
    {A : Type ℓ} → (A → String) → DomainError → Map A → List A → Result (Map A)
collect key duplicate m [] = ok m
collect key duplicate m (x ∷ xs) =
    let rest = collect key duplicate (insert (key x) x m) xs in
    if contains_key (key x) m then err duplicate else rest

abbrev verdict : Option CeremonyValidationFinding → Result ⊤
verdict none = ok tt
verdict (some finding) = err finding.defect

module _ {V : Type 0} where
  unfoldable pub collect_steps :
      Map (CeremonyStep V)
      → List String
      → List (CeremonyStep V)
      → Result (Map (CeremonyStep V) × List String)
  collect_steps m order [] = ok (m, order)
  collect_steps m order (s ∷ ss) =
      let rest = collect_steps (insert s.id s m) (order ++ s.id ∷ []) ss in
      if contains_key s.id m then err (already_exists "ceremony_step") else rest

  -- `analyze`: the findings of `collect_findings`.
  unfoldable pub analyze : CeremonyDefinition V → Findings
  analyze d =
      initial_state_findings d.states
      ++ (transition_findings d.states d.guards d.transitions []
          ++ (step_findings d.states d.steps
              ++ (guard_findings d.steps d.guards
                  ++ (role_findings d.steps (triggers_of d.transitions) d.roles
                      ++ reachability_findings (sole_initial_state_id d.states) d.states
                          d.transitions))))

  unfoldable pub validate : CeremonyDefinition V → Result ⊤
  validate d = verdict (first_error (analyze d))

  -- The body of `CeremonyDefinition::new`, from what its `collect_*` calls return; the first of
  -- them that fails ends it.
  unfoldable pub assemble :
      String
      → String
      → Option String
      → Result (Map CeremonyInputDefinition)
      → Result (Map CeremonyOutputDefinition)
      → Result (Map CeremonyState)
      → List CeremonyTransition
      → Result (Map (CeremonyStep V) × List String)
      → Result (Map CeremonyGuard)
      → Result (Map CeremonyRole)
      → Result (CeremonyDefinition V)
  assemble name version description inputs outputs states transitions steps guards roles = do
    inputs' ← inputs
    outputs' ← outputs
    states' ← states
    steps' ← steps
    guards' ← guards
    roles' ← roles
    let d : CeremonyDefinition V = record {
      name = name;
      version = version;
      description = description;
      inputs = inputs';
      outputs = outputs';
      states = states';
      transitions = transitions;
      steps = steps'.0;
      step_order = steps'.1;
      guards = guards';
      roles = roles';
    }
    validate d
    ok d

  -- `CeremonyDefinition::new`
  unfoldable pub definition_new :
      String
      → String
      → Option String
      → List CeremonyInputDefinition
      → List CeremonyOutputDefinition
      → List CeremonyState
      → List CeremonyTransition
      → List (CeremonyStep V)
      → List CeremonyGuard
      → List CeremonyRole
      → Result (CeremonyDefinition V)
  unfolding assemble
  definition_new name version description inputs outputs states transitions steps guards roles =
      assemble name version description
        (collect (λ i. i.name) (already_exists "ceremony_input") [] inputs)
        (collect (λ o. o.name) (already_exists "ceremony_output") [] outputs)
        (collect (λ s. s.id) (already_exists "ceremony_state") [] states) transitions
        (collect_steps [] [] steps)
        (collect (λ g. g.name) (already_exists "ceremony_guard") [] guards)
        (collect (λ r. r.id) (already_exists "ceremony_role") [] roles)
