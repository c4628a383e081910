-- ===== src/Ceremony/Definition/Built.antt =====
-- What a definition that `CeremonyDefinition::new` has built satisfies: entities/
-- ceremony_definition.rs.
use underpass_choreographer.Shared.{
  refl, ◌≡◌, inl, inr, String, Option, some, List, [], ◌∷◌, ◌++◌, arith, eq_iff, length, keep,
  Bool-cases,
}
use underpass_choreographer.Shared.Map.{Map, values, IsKeyed, insert-IsKeyed, insert}
use underpass_choreographer.Shared.Result.{Result, DomainError, ok, err}
use underpass_choreographer.Ceremony.Guard.{CeremonyGuard, CeremonyRole}
use underpass_choreographer.Ceremony.Definition.Data.{
  CeremonyState, CeremonyStep, CeremonyTransition, CeremonyDefinition, CeremonyInputDefinition,
  CeremonyOutputDefinition, is_initial, first_initial, initial_state_id,
}
use underpass_choreographer.Ceremony.Definition.New.{
  collect, collect_steps, assemble, definition_new,
}
use underpass_choreographer.Ceremony.Definition.WellFormed.{WellFormed, IsLive}
use underpass_choreographer.Ceremony.Definition.Validate.{validate_iff}

abbrev IsKeyedIfOk : {A : Type 0} → (A → String) → Result (Map A) → Type 0
IsKeyedIfOk key (ok m) = IsKeyed key m
IsKeyedIfOk key (err _) = Unit

collect-IsKeyed :
    {A : Type 0} (key : A → String) (duplicate : DomainError) (m : Map A) (xs : List A)
    → IsKeyed key m
    → IsKeyedIfOk key (collect key duplicate m xs)
unfolding collect
collect-IsKeyed key duplicate m [] h = h
collect-IsKeyed key duplicate m (x ∷ xs) h =
    ground (arith, insert-IsKeyed key x m, collect-IsKeyed key duplicate (insert (key x) x m) xs)

abbrev StepsAreKeyedIfOk : {V : Type 0} → Result (Map (CeremonyStep V) × List String) → Type 0
StepsAreKeyedIfOk (ok r) = IsKeyed (λ s. s.id) r.0
StepsAreKeyedIfOk (err _) = Unit

module _ {V : Type 0} where
  collect_steps-IsKeyed :
      (m : Map (CeremonyStep V)) (order : List String) (xs : List (CeremonyStep V))
      → IsKeyed (λ s. s.id) m
      → StepsAreKeyedIfOk (collect_steps m order xs)
  unfolding collect_steps
  collect_steps-IsKeyed m order [] h = h
  collect_steps-IsKeyed m order (x ∷ xs) h = ground (
    arith,
    insert-IsKeyed (λ (s : CeremonyStep V). s.id) x m,
    collect_steps-IsKeyed (insert x.id x m) (order ++ x.id ∷ []) xs,
  )

  -- What the constructor promises.
  pub record IsBuilt (d : CeremonyDefinition V) : Type 0 where
    pub well_formed : WellFormed d
    pub states_keyed : IsKeyed (λ s. s.id) d.states
    pub steps_keyed : IsKeyed (λ s. s.id) d.steps
    pub guards_keyed : IsKeyed (λ g. g.name) d.guards
    pub roles_keyed : IsKeyed (λ r. r.id) d.roles

  assemble-IsBuilt :
      (name version : String) (description : Option String)
      (inputs : Result (Map CeremonyInputDefinition))
      (outputs : Result (Map CeremonyOutputDefinition)) (states : Result (Map CeremonyState))
      (transitions : List CeremonyTransition) (steps : Result (Map (CeremonyStep V) × List String))
      (guards : Result (Map CeremonyGuard)) (roles : Result (Map CeremonyRole))
      {d : CeremonyDefinition V}
      → IsKeyedIfOk (λ s. s.id) states
      → StepsAreKeyedIfOk steps
      → IsKeyedIfOk (λ g. g.name) guards
      → IsKeyedIfOk (λ r. r.id) roles
      → assemble name version description inputs outputs states transitions steps guards roles
        ≡ ok d
      → IsBuilt d
  unfolding assemble
  assemble-IsBuilt name version description inputs outputs states transitions steps guards roles {d}
        ks kt kg kr h =
      ground (arith, validate_iff d)

  -- Every definition that is built is well formed, and each of its parts is found under its name.
  pub definition_new-IsBuilt :
      (name version : String) (description : Option String) (inputs : List CeremonyInputDefinition)
      (outputs : List CeremonyOutputDefinition) (states : List CeremonyState)
      (transitions : List CeremonyTransition) (steps : List (CeremonyStep V))
      (guards : List CeremonyGuard) (roles : List CeremonyRole) {d : CeremonyDefinition V}
      → definition_new name version description inputs outputs states transitions steps guards roles
        ≡ ok d
      → IsBuilt d
  unfolding definition_new
  definition_new-IsBuilt name version description inputs outputs states transitions steps guards
        roles h =
      assemble-IsBuilt name version description _ _ _ transitions _ _ _
        (collect-IsKeyed _ _ [] states tt) (collect_steps-IsKeyed [] [] steps tt)
        (collect-IsKeyed _ _ [] guards tt) (collect-IsKeyed _ _ [] roles tt) h

length_none : {A : Type 0} (xs : List A) → length xs ≡ 0 → xs ≡ []
length_none [] h = refl
length_none (x ∷ xs) h = absurd (omega (arith, h))

-- In a map that is keyed by its states and has one initial state, that one is found, and is live.
first_initial-IsLive :
    (m : Map CeremonyState)
    → IsKeyed (λ s. s.id) m
    → length (keep is_initial (values m)) ≡ 1
    → (s : CeremonyState) × (first_initial (values m) ≡ some s.id)
      × IsLive m s.id
      × (keep is_initial (values m) ≡ s ∷ [])
first_initial-IsLive [] k h = absurd (omega arith)
first_initial-IsLive ((k, s) ∷ m) keyed h = elim (Bool-cases (is_initial s)) [
  | inl e ↦ (
    s,
    ground (arith, eq_iff k s.id),
    ground (arith, eq_iff k s.id),
    ground (arith, e, h, length_none (keep is_initial (values m))),
  )
  | inr e ↦
      let (i, found, live, only) = first_initial-IsLive m keyed.2 (ground arith) in
      (i, ground arith, ground (arith, eq_iff k i.id), ground (arith, e, only))
]

module _ {V : Type 0} where
  pub initial_IsLive :
      (d : CeremonyDefinition V)
      → IsBuilt d
      → (s : CeremonyState) × (initial_state_id d ≡ some s.id)
        × IsLive d.states s.id
        × (keep is_initial (values d.states) ≡ s ∷ [])
  unfolding initial_state_id
  initial_IsLive d b = first_initial-IsLive d.states b.states_keyed b.well_formed.one_initial
