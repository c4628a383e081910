-- ===== src/Ceremony/Definition/Reached.antt =====
-- The walk forward over the graph ends with an empty stack, and finds exactly what the initial state
-- reaches: entities/ceremony_definition_analysis.rs, `states_reachable_from`.
use underpass_choreographer.Shared.{
  ℕ, zero, suc, ◌+◌, ◌≤◌, ◌<◌, ◌≡◌, ◌↔◌, ◌⊎◌, inl, inr, refl, subst, Bool, true, false, ◌&&◌, ◌||◌,
  String, List, [], ◌∷◌, arith, length, elem, any, if◌then◌else◌, ◌==◌, eq_iff, eq_refl, Bool-cases,
}
use underpass_choreographer.Shared.Map.{set_insert, elem-set_insert}
use underpass_choreographer.Ceremony.Definition.Data.{CeremonyTransition}
use underpass_choreographer.Ceremony.Definition.Reachability.{
  push_targets, explore, states_reachable_from,
}

-- How many transitions leave the state, and how many leave a state that is not yet reached.
abbrev outgoing : String → List CeremonyTransition → ℕ
outgoing c [] = 0
outgoing c (t ∷ ts) = if t.from == c then suc (outgoing c ts) else outgoing c ts

abbrev unexpanded : List CeremonyTransition → List String → ℕ
unexpanded [] reached = 0
unexpanded (t ∷ ts) reached =
    if elem t.from reached then unexpanded ts reached else suc (unexpanded ts reached)

length-push_targets :
    (c : String) (ts : List CeremonyTransition) (pending : List String)
    → length (push_targets c ts pending) ≡ length pending + outgoing c ts
length-push_targets c [] pending = omega arith
length-push_targets c (t ∷ ts) pending =
    ground (arith, length-push_targets c ts pending, length-push_targets c ts (t.to ∷ pending))

unexpanded-set_insert :
    (c : String) (ts : List CeremonyTransition) (reached : List String)
    → elem c reached ≡ false
    → unexpanded ts (set_insert c reached) + outgoing c ts ≡ unexpanded ts reached
unexpanded-set_insert c [] reached h = refl
unexpanded-set_insert c (t ∷ ts) reached h = ground (
  arith,
  h,
  unexpanded-set_insert c ts reached,
  elem-set_insert t.from c reached,
  eq_iff t.from c,
  eq_iff c t.from,
)

unexpanded_le :
    (ts : List CeremonyTransition) (reached : List String) → unexpanded ts reached ≤ length ts
unexpanded_le [] reached = omega arith
unexpanded_le (t ∷ ts) reached = ground (arith, unexpanded_le ts reached)

explore_drains :
    (fuel : ℕ) (ts : List CeremonyTransition) (reached pending : List String)
    → length pending + unexpanded ts reached < fuel
    → (explore fuel ts reached pending).1 ≡ []
unfolding explore
explore_drains zero ts reached pending h = ground arith
explore_drains (suc fuel) ts reached [] h = refl
explore_drains (suc fuel) ts reached (c ∷ pending) h = ground (
  arith,
  h,
  explore_drains fuel ts reached pending,
  explore_drains fuel ts (set_insert c reached) (push_targets c ts pending),
  length-push_targets c ts pending,
  unexpanded-set_insert c ts reached,
)

-- Some transition leads from the one state to the other.
abbrev pub leads : List CeremonyTransition → String → String → Bool
leads ts a b = any (λ t. (t.from == a) && (t.to == b)) ts

-- What the transitions reach from a state.
pub data Reaches (ts : List CeremonyTransition) (initial : String) : String → Type 0 where
  here : Reaches ts initial initial
  further : (a b : String) → Reaches ts initial a → leads ts a b ≡ true → Reaches ts initial b

elem-push_targets :
    (x c : String) (ts : List CeremonyTransition) (pending : List String)
    → elem x (push_targets c ts pending) ≡ (elem x pending || leads ts c x)
elem-push_targets x c [] pending = ground arith
elem-push_targets x c (t ∷ ts) pending =
    ground (arith, elem-push_targets x c ts pending, elem-push_targets x c ts (t.to ∷ pending))

module _ (ts : List CeremonyTransition) (initial : String) where
  abbrev Sound : List String → List String → Type 0
  Sound reached pending =
      (x : String) → (elem x reached || elem x pending) ≡ true → Reaches ts initial x

  abbrev Closed : List String → List String → Type 0
  Closed reached pending =
      (a b : String)
      → elem a reached ≡ true
      → leads ts a b ≡ true
      → (elem b reached || elem b pending) ≡ true

  abbrev Holds : List String → List String → Type 0
  Holds reached pending = (elem initial reached || elem initial pending) ≡ true

  further_seen :
      (x c : String) (reached pending : List String)
      → (elem x (set_insert c reached) || elem x (push_targets c ts pending)) ≡ true
      → ((elem x reached || elem x (c ∷ pending)) ≡ true) ⊎ (leads ts c x ≡ true)
  further_seen x c reached pending h =
      ground (arith, h, elem-set_insert x c reached, elem-push_targets x c ts pending)

  further-Sound :
      (c : String) (reached pending : List String)
      → Sound reached (c ∷ pending)
      → Sound (set_insert c reached) (push_targets c ts pending)
  further-Sound c reached pending s x h = elim (further_seen x c reached pending h) [
    | inl seen ↦ s x seen
    | inr edge ↦ Reaches.further c x (s c (ground (arith, eq_refl c))) edge
  ]

  again-Sound :
      (c : String) (reached pending : List String)
      → Sound reached (c ∷ pending)
      → Sound reached pending
  again-Sound c reached pending s x h = s x (ground (arith, h))

  further-Closed :
      (c : String) (reached pending : List String)
      → Closed reached (c ∷ pending)
      → Closed (set_insert c reached) (push_targets c ts pending)
  further-Closed c reached pending k a b ha hb = ground (
    arith,
    ha,
    hb,
    k a b,
    eq_iff c a,
    eq_iff c b,
    elem-set_insert a c reached,
    elem-set_insert b c reached,
    elem-push_targets b c ts pending,
  )

  again-Closed :
      (c : String) (reached pending : List String)
      → elem c reached ≡ true
      → Closed reached (c ∷ pending)
      → Closed reached pending
  again-Closed c reached pending e k a b ha hb = ground (arith, e, ha, hb, k a b, eq_iff c b)

  explored-Sound :
      (fuel : ℕ) (reached pending : List String)
      → Sound reached pending
      → (x : String) → elem x (explore fuel ts reached pending).0 ≡ true
      → Reaches ts initial x
  unfolding explore
  explored-Sound zero reached pending s x h = s x (ground (arith, h))
  explored-Sound (suc fuel) reached [] s x h = s x (ground (arith, h))
  explored-Sound (suc fuel) reached (c ∷ pending) s x h = elim (Bool-cases (elem c reached)) [
    | inl e ↦
        explored-Sound fuel reached pending (again-Sound c reached pending s) x
          (ground (arith, e, h))
    | inr e ↦
        explored-Sound fuel (set_insert c reached) (push_targets c ts pending)
          (further-Sound c reached pending s) x (ground (arith, e, h))
  ]

  -- With the stack empty at the end, what was reached is closed under the transitions.
  explored-Closed :
      (fuel : ℕ) (reached pending : List String)
      → length pending + unexpanded ts reached < fuel
      → Closed reached pending
      → Closed (explore fuel ts reached pending).0 []
  unfolding explore
  explored-Closed zero reached pending l k = ground arith
  explored-Closed (suc fuel) reached [] l k = k
  explored-Closed (suc fuel) reached (c ∷ pending) l k = elim (Bool-cases (elem c reached)) [
    | inl e ↦ λ a b ha hb. ground (
      arith,
      e,
      explored-Closed fuel reached pending (omega (arith, l)) (again-Closed c reached pending e k) a
          b,
      ha,
      hb,
    )
    | inr e ↦ λ a b ha hb. ground (
      arith,
      e,
      explored-Closed fuel (set_insert c reached) (push_targets c ts pending)
          (omega (arith, l, length-push_targets c ts pending, unexpanded-set_insert c ts reached e))
          (further-Closed c reached pending k) a b,
      ha,
      hb,
    )
  ]

  explored-Holds :
      (fuel : ℕ) (reached pending : List String)
      → length pending + unexpanded ts reached < fuel
      → Holds reached pending
      → elem initial (explore fuel ts reached pending).0 ≡ true
  unfolding explore
  explored-Holds zero reached pending l h = ground arith
  explored-Holds (suc fuel) reached [] l h = ground (arith, h)
  explored-Holds (suc fuel) reached (c ∷ pending) l h = ground (
    arith,
    l,
    h,
    explored-Holds fuel reached pending,
    explored-Holds fuel (set_insert c reached) (push_targets c ts pending),
    length-push_targets c ts pending,
    unexpanded-set_insert c ts reached,
    elem-set_insert initial c reached,
    elem-push_targets initial c ts pending,
    eq_iff c initial,
  )

  complete :
      (result : List String)
      → elem initial result ≡ true
      → Closed result []
      → (x : String) → Reaches ts initial x
      → elem x result ≡ true
  complete result h k x Reaches.here = h
  complete result h k x (Reaches.further a b r e) =
      ground (arith, k a b (complete result h k a r) e)

starts-Sound :
    (ts : List CeremonyTransition) (initial : String) → Sound ts initial [] (initial ∷ [])
starts-Sound ts initial x h =
    subst (Reaches ts initial) ((eq_iff initial x).0 (ground (arith, h))) Reaches.here

-- The walk forward from a state collects a state exactly when the transitions reach it, and its
-- fuel is enough.
pub states_reachable_from_iff :
    (ts : List CeremonyTransition) (initial x : String)
    → (elem x (states_reachable_from ts initial) ≡ true) ↔ Reaches ts initial x
unfolding states_reachable_from
states_reachable_from_iff ts initial x =
    let fuel = suc (suc (length ts)) in
    let enough : 1 + unexpanded ts [] < fuel = omega (arith, unexpanded_le ts []) in
    (
      explored-Sound ts initial fuel [] (initial ∷ []) (starts-Sound ts initial) x,
      complete ts initial (explore fuel ts [] (initial ∷ [])).0
          (explored-Holds ts initial fuel [] (initial ∷ []) enough
            (ground (arith, eq_refl initial)))
          (explored-Closed ts initial fuel [] (initial ∷ []) enough
            (λ a b ha hb. ground (arith, ha)))
          x,
    )
