-- ===== src/Ceremony/Definition/Validate.antt =====
-- The validation of entities/ceremony_definition.rs and entities/ceremony_definition_analysis.rs
-- against the conditions of a well-formed definition.
use underpass_choreographer.Shared.{
  ◌≡◌, refl, ◌↔◌, subst, sym, false, String, Option, none, some, List, [], ◌∷◌, ◌++◌, All, arith,
  eq_iff, length, keep,
}
use underpass_choreographer.Shared.Map.{Map, lookup, values}
use underpass_choreographer.Shared.Result.{ok}
use underpass_choreographer.Ceremony.Guard.{
  CeremonyGuard, CeremonyRole, RoleAction, referenced_step_id,
}
use underpass_choreographer.Ceremony.Definition.Data.{
  CeremonyState, CeremonyStep, CeremonyTransition, CeremonyDefinition, is_initial, triggers_of,
}
use underpass_choreographer.Ceremony.Definition.Reachability.{
  states_reachable_from, states_that_reach_a_terminal,
}
use underpass_choreographer.Ceremony.Definition.Analysis.{
  Findings, CeremonyValidationLocus, first_error, required_guard_findings, SeenPairs, pair_seen,
  transition_checks, transition_findings, step_findings, guard_findings, action_findings,
  role_findings, initial_state_findings,
}
use underpass_choreographer.Ceremony.Definition.New.{
  state_findings, reachability_findings, analyze, validate, sole_initial_state_id,
}
use underpass_choreographer.Ceremony.Definition.WellFormed.{
  TransitionIsSound, Differ, IsDeterministic, GuardIsSound, ActionIsSound, StepsAreSound,
  WellFormed, IsDeclared,
}

abbrev NoErrors : Findings → Type 0
NoErrors fs = first_error fs ≡ none

NoErrors-append : (fs gs : Findings) → NoErrors (fs ++ gs) ↔ (NoErrors fs × NoErrors gs)
NoErrors-append [] gs = ground arith
NoErrors-append (f ∷ fs) gs = ground (arith, NoErrors-append fs gs)

required_guards_iff :
    (guards : Map CeremonyGuard) (locus : CeremonyValidationLocus) (gs : List String)
    → NoErrors (required_guard_findings guards locus gs) ↔ All (IsDeclared guards) gs
unfolding required_guard_findings
required_guards_iff guards locus [] = ground arith
required_guards_iff guards locus (g ∷ gs) = ground (arith, required_guards_iff guards locus gs)

-- The transition is not among the pairs that were seen.
abbrev IsFresh : SeenPairs → CeremonyTransition → Type 0
IsFresh seen t = pair_seen t.from t.trigger seen ≡ false

transition_checks_iff :
    (states : Map CeremonyState) (guards : Map CeremonyGuard) (t : CeremonyTransition)
    (seen : SeenPairs)
    → NoErrors (transition_checks (lookup t.from states) states guards t seen).0
      ↔ (TransitionIsSound states guards t × IsFresh seen t)
unfolding transition_checks
transition_checks_iff states guards t seen = ground (
  arith,
  required_guards_iff guards (CeremonyValidationLocus.transition t.from t.trigger)
      t.required_guards,
)

-- A transition that raises no error is remembered.
transition_checks_seen :
    (states : Map CeremonyState) (guards : Map CeremonyGuard) (t : CeremonyTransition)
    (seen : SeenPairs)
    → TransitionIsSound states guards t
    → IsFresh seen t
    → (transition_checks (lookup t.from states) states guards t seen).1 ≡ (t.from, t.trigger) ∷ seen
unfolding transition_checks
transition_checks_seen states guards t seen h f = ground arith

IsFresh-cons_iff :
    (t : CeremonyTransition) (seen : SeenPairs) (us : List CeremonyTransition)
    → All (IsFresh ((t.from, t.trigger) ∷ seen)) us ↔ (All (Differ t) us × All (IsFresh seen) us)
IsFresh-cons_iff t seen [] = ground arith
IsFresh-cons_iff t seen (u ∷ us) = ground (
  arith,
  eq_iff t.from u.from,
  eq_iff t.trigger u.trigger,
  eq_iff u.from t.from,
  IsFresh-cons_iff t seen us,
)

-- One round of the loop, from what the rounds after it are known to do.
module _ (states : Map CeremonyState) (guards : Map CeremonyGuard) (t : CeremonyTransition)
    (ts : List CeremonyTransition) (seen : SeenPairs) where
  abbrev Sounds : List CeremonyTransition → SeenPairs → Type 0
  Sounds us ps = All (TransitionIsSound states guards) us × All (IsFresh ps) us × IsDeterministic us

  transition_round_iff :
      NoErrors (transition_findings states guards ts ((t.from, t.trigger) ∷ seen))
        ↔ Sounds ts ((t.from, t.trigger) ∷ seen)
      → NoErrors (transition_findings states guards (t ∷ ts) seen) ↔ Sounds (t ∷ ts) seen
  unfolding transition_findings
  transition_round_iff ih = (there, back)
    where
      rest : SeenPairs → Findings
      rest = transition_findings states guards ts

      checks : Findings × SeenPairs
      checks = transition_checks (lookup t.from states) states guards t seen

      there : NoErrors (checks.0 ++ rest checks.1) → Sounds (t ∷ ts) seen
      there h =
          let (here, later) = (NoErrors-append checks.0 (rest checks.1)).0 h in
          let (sound, fresh) = (transition_checks_iff states guards t seen).0 here in
          let remembered = transition_checks_seen states guards t seen sound fresh in
          let (sounds, freshes, determined) =
            ih.0 (subst (λ p. NoErrors (rest p)) remembered later) in
          let (differ, unseen) = (IsFresh-cons_iff t seen ts).0 freshes in
          ((sound, sounds), (fresh, unseen), (differ, determined))

      back : Sounds (t ∷ ts) seen → NoErrors (checks.0 ++ rest checks.1)
      back h =
          let remembered = transition_checks_seen states guards t seen h.0.0 h.1.0 in
          let unseen = (IsFresh-cons_iff t seen ts).1 (h.2.0, h.1.1) in
          (NoErrors-append checks.0 (rest checks.1)).1 (
            (transition_checks_iff states guards t seen).1 (h.0.0, h.1.0),
            subst (λ p. NoErrors (rest p)) (sym remembered) (ih.1 (h.0.1, unseen, h.2.1)),
          )

transition_findings_iff :
    (states : Map CeremonyState) (guards : Map CeremonyGuard) (ts : List CeremonyTransition)
    (seen : SeenPairs)
    → NoErrors (transition_findings states guards ts seen)
      ↔ (All (TransitionIsSound states guards) ts × All (IsFresh seen) ts × IsDeterministic ts)
transition_findings_iff states guards [] seen = unfold transition_findings in ground arith
transition_findings_iff states guards (t ∷ ts) seen =
    transition_round_iff states guards t ts seen
      (transition_findings_iff states guards ts ((t.from, t.trigger) ∷ seen))

IsFresh-nil : (ts : List CeremonyTransition) → All (IsFresh []) ts
IsFresh-nil [] = tt
IsFresh-nil (t ∷ ts) = (refl, IsFresh-nil ts)

step_findings_iff :
    {V : Type 0} (states : Map CeremonyState) (steps : Map (CeremonyStep V))
    → NoErrors (step_findings states steps) ↔ StepsAreSound states steps
unfolding step_findings
step_findings_iff states [] = ground arith
step_findings_iff states ((k, s) ∷ steps) = ground (arith, step_findings_iff states steps)

guard_findings_iff :
    {V : Type 0} (steps : Map (CeremonyStep V)) (guards : Map CeremonyGuard)
    → NoErrors (guard_findings steps guards)
      ↔ All (λ g. GuardIsSound steps (referenced_step_id g.condition)) (values guards)
unfolding guard_findings
guard_findings_iff steps [] = ground arith
guard_findings_iff steps ((k, g) ∷ guards) = ground (arith, guard_findings_iff steps guards)

action_findings_iff :
    {V : Type 0} (steps : Map (CeremonyStep V)) (ts : List CeremonyTransition) (role_id : String)
    (actions : List RoleAction)
    → NoErrors (action_findings steps (triggers_of ts) role_id actions)
      ↔ All (ActionIsSound steps ts) actions
unfolding action_findings
action_findings_iff steps ts role_id [] = ground arith
action_findings_iff steps ts role_id (a ∷ actions) =
    ground (arith, action_findings_iff steps ts role_id actions)

role_findings_iff :
    {V : Type 0} (steps : Map (CeremonyStep V)) (ts : List CeremonyTransition)
    (roles : Map CeremonyRole)
    → NoErrors (role_findings steps (triggers_of ts) roles)
      ↔ All (λ r. All (ActionIsSound steps ts) r.allowed_actions) (values roles)
unfolding role_findings
role_findings_iff steps ts [] = ground arith
role_findings_iff steps ts ((k, r) ∷ roles) = ground (
  arith,
  NoErrors-append (action_findings steps (triggers_of ts) k r.allowed_actions)
      (role_findings steps (triggers_of ts) roles),
  action_findings_iff steps ts k r.allowed_actions,
  role_findings_iff steps ts roles,
)

-- The graph is only warned about.
state_findings-NoErrors :
    (reachable can_finish : List String) (m : Map CeremonyState)
    → NoErrors (state_findings reachable can_finish m)
unfolding state_findings
state_findings-NoErrors reachable can_finish [] = refl
state_findings-NoErrors reachable can_finish ((k, s) ∷ m) =
    ground (arith, state_findings-NoErrors reachable can_finish m)

reachability_findings-NoErrors :
    (initial : Option String) (states : Map CeremonyState) (ts : List CeremonyTransition)
    → NoErrors (reachability_findings initial states ts)
unfolding reachability_findings
reachability_findings-NoErrors none states ts = refl
reachability_findings-NoErrors (some i) states ts = ground (
  arith,
  state_findings-NoErrors (states_reachable_from ts i) (states_that_reach_a_terminal states ts)
      states,
)

initial_state_findings_iff :
    (states : Map CeremonyState)
    → NoErrors (initial_state_findings states) ↔ (length (keep is_initial (values states)) ≡ 1)
unfolding initial_state_findings
initial_state_findings_iff [] = ground arith
initial_state_findings_iff ((k, s) ∷ states) = ground arith

both : (fs gs : Findings) → NoErrors fs → NoErrors gs → NoErrors (fs ++ gs)
both fs gs a b = (NoErrors-append fs gs).1 (a, b)

module _ {V : Type 0} where
  analyze_iff : (d : CeremonyDefinition V) → NoErrors (analyze d) ↔ WellFormed d
  unfolding analyze
  analyze_iff d = (there, back)
    where
      reached : Findings
      reached = reachability_findings (sole_initial_state_id d.states) d.states d.transitions

      by_role : Findings
      by_role = role_findings d.steps (triggers_of d.transitions) d.roles

      by_guard : Findings
      by_guard = guard_findings d.steps d.guards

      by_step : Findings
      by_step = step_findings d.states d.steps

      by_transition : Findings
      by_transition = transition_findings d.states d.guards d.transitions []

      warned : NoErrors reached
      warned =
          reachability_findings-NoErrors (sole_initial_state_id d.states) d.states d.transitions

      there : NoErrors (analyze d) → WellFormed d
      there h =
          let (one, h1) =
            (NoErrors-append (initial_state_findings d.states)
                (by_transition ++ (by_step ++ (by_guard ++ (by_role ++ reached))))).0
              h in
          let (moves, h2) =
            (NoErrors-append by_transition (by_step ++ (by_guard ++ (by_role ++ reached)))).0 h1 in
          let (steps, h3) = (NoErrors-append by_step (by_guard ++ (by_role ++ reached))).0 h2 in
          let (guards, h4) = (NoErrors-append by_guard (by_role ++ reached)).0 h3 in
          let (roles, _) = (NoErrors-append by_role reached).0 h4 in
          let (sound, _, determined) =
            (transition_findings_iff d.states d.guards d.transitions []).0 moves in
          record {
            one_initial = (initial_state_findings_iff d.states).0 one;
            transitions_sound = sound;
            deterministic = determined;
            steps_sound = (step_findings_iff d.states d.steps).0 steps;
            guards_sound = (guard_findings_iff d.steps d.guards).0 guards;
            roles_sound = (role_findings_iff d.steps d.transitions d.roles).0 roles;
          }

      back : WellFormed d → NoErrors (analyze d)
      back w =
          let roles = (role_findings_iff d.steps d.transitions d.roles).1 w.roles_sound in
          let guards = (guard_findings_iff d.steps d.guards).1 w.guards_sound in
          let steps = (step_findings_iff d.states d.steps).1 w.steps_sound in
          let moves =
            (transition_findings_iff d.states d.guards d.transitions []).1
              (w.transitions_sound, IsFresh-nil d.transitions, w.deterministic) in
          let one = (initial_state_findings_iff d.states).1 w.one_initial in
          both (initial_state_findings d.states) _ one (
            both by_transition _ moves
              (both by_step _ steps (both by_guard _ guards (both by_role _ roles warned))))

  -- Validation accepts a definition exactly when it is well formed.
  pub validate_iff : (d : CeremonyDefinition V) → (validate d ≡ ok tt) ↔ WellFormed d
  unfolding validate
  validate_iff d = ground (arith, analyze_iff d)
