-- ===== src/Ceremony/Definition/Finishing.antt =====
-- The walk backward over the graph ends at a fixed point, and finds exactly the states that reach a
-- terminal one: entities/ceremony_definition_analysis.rs, `states_that_reach_a_terminal`.
use underpass_choreographer.Shared.{
  ℕ, zero, suc, ◌≤◌, ◌<◌, ◌≡◌, ◌↔◌, inl, inr, refl, sym, subst, ◌∙◌, Bool, true, false, ◌&&◌, not,
  String, List, [], ◌∷◌, arith, length, elem, any, if◌then◌else◌, ◌==◌, eq_iff, eq_refl, Bool-cases,
}
use underpass_choreographer.Shared.Map.{Map, set_insert, elem-set_insert}
use underpass_choreographer.Ceremony.Definition.Data.{CeremonyTransition, CeremonyState}
use underpass_choreographer.Ceremony.Definition.Reachability.{
  grow_pass, grow, terminal_ids, states_that_reach_a_terminal,
}
use underpass_choreographer.Ceremony.Definition.Reached.{leads}

-- How many transitions leave a state that is not yet in the set.
abbrev outside : List CeremonyTransition → List String → ℕ
outside [] set = 0
outside (t ∷ ts) set = if elem t.from set then outside ts set else suc (outside ts set)

outside_le : (ts : List CeremonyTransition) (set : List String) → outside ts set ≤ length ts
outside_le [] set = omega arith
outside_le (t ∷ ts) set = ground (arith, outside_le ts set)

outside-set_insert :
    (c : String) (ts : List CeremonyTransition) (set : List String)
    → outside ts (set_insert c set) ≤ outside ts set
outside-set_insert c [] set = omega arith
outside-set_insert c (t ∷ ts) set =
    ground (arith, outside-set_insert c ts set, elem-set_insert t.from c set)

-- Adding the source of one of the transitions lowers the count.
outside_lt :
    (c : String) (ts : List CeremonyTransition) (set : List String)
    → elem c set ≡ false
    → any (λ t. t.from == c) ts ≡ true
    → outside ts (set_insert c set) < outside ts set
outside_lt c [] set h e = ground (arith, e)
outside_lt c (t ∷ ts) set h e = ground (
  arith,
  h,
  e,
  outside_lt c ts set,
  outside-set_insert c ts set,
  elem-set_insert t.from c set,
  eq_iff t.from c,
  eq_iff c t.from,
)

-- What a pass over some transitions `us` of `ts` does to the count over all of `ts`.
abbrev AreOf : List CeremonyTransition → List CeremonyTransition → Type 0
AreOf ts [] = Unit
AreOf ts (u ∷ us) = (leads ts u.from u.to ≡ true) × AreOf ts us

AreOf-more :
    (t : CeremonyTransition) (ts us : List CeremonyTransition) → AreOf ts us → AreOf (t ∷ ts) us
AreOf-more t ts [] a = tt
AreOf-more t ts (u ∷ us) a = ground (arith, a, AreOf-more t ts us)

AreOf-self : (ts : List CeremonyTransition) → AreOf ts ts
AreOf-self [] = tt
AreOf-self (t ∷ ts) =
    (ground (arith, eq_refl t.from, eq_refl t.to), AreOf-more t ts ts (AreOf-self ts))

leads_leaves :
    (ts : List CeremonyTransition) (a b : String)
    → leads ts a b ≡ true
    → any (λ t. t.from == a) ts ≡ true
leads_leaves [] a b h = ground (arith, h)
leads_leaves (t ∷ ts) a b h = ground (arith, h, leads_leaves ts a b)

pass_lowers :
    (ts us : List CeremonyTransition) (set : List String)
    → AreOf ts us
    → (outside ts (grow_pass us set true).0 ≤ outside ts set) × ((grow_pass us set true).1 ≡ true)
unfolding grow_pass
pass_lowers ts [] set a = (omega arith, refl)
pass_lowers ts (u ∷ us) set a = ground (
  arith,
  a,
  pass_lowers ts us set,
  pass_lowers ts us (set_insert u.from set),
  outside-set_insert u.from ts set,
)

pass_grows :
    (ts us : List CeremonyTransition) (set : List String)
    → AreOf ts us
    → (grow_pass us set false).1 ≡ true
    → outside ts (grow_pass us set false).0 < outside ts set
unfolding grow_pass
pass_grows ts [] set a h = ground (arith, h)
pass_grows ts (u ∷ us) set a h = ground (
  arith,
  a,
  h,
  pass_grows ts us set,
  pass_lowers ts us (set_insert u.from set),
  outside_lt u.from ts set,
  leads_leaves ts u.from u.to,
)

pass_grew : (us : List CeremonyTransition) (set : List String) → (grow_pass us set true).1 ≡ true
unfolding grow_pass
pass_grew [] set = refl
pass_grew (u ∷ us) set = ground (arith, pass_grew us set, pass_grew us (set_insert u.from set))

-- A pass that does not grow the set leaves it as it is, closed under the transitions backward.
abbrev ClosedBack : List CeremonyTransition → List String → Type 0
ClosedBack [] set = Unit
ClosedBack (t ∷ ts) set = (elem t.to set ≡ true → elem t.from set ≡ true) × ClosedBack ts set

pass_ends :
    (us : List CeremonyTransition) (set : List String)
    → (grow_pass us set false).1 ≡ false
    → ((grow_pass us set false).0 ≡ set) × ClosedBack us set
unfolding grow_pass
pass_ends [] set h = (refl, tt)
pass_ends (u ∷ us) set h = ground (arith, h, pass_ends us set, pass_grew us (set_insert u.from set))

grow_ends :
    (fuel : ℕ) (ts : List CeremonyTransition) (set : List String)
    → outside ts set < fuel
    → ClosedBack ts (grow fuel ts set)
unfolding grow
grow_ends zero ts set l = ground arith
grow_ends (suc fuel) ts set l = elim (Bool-cases (grow_pass ts set false).1) [
  | inl e ↦ subst (ClosedBack ts) (sym (grown fuel ts set e)) (
      grow_ends fuel ts (grow_pass ts set false).0
        (omega (arith, l, pass_grows ts ts set (AreOf-self ts) e)))
  | inr e ↦
      let (same, closed) = pass_ends ts set e in
      subst (ClosedBack ts) (sym (ended fuel ts set e ∙ same)) closed
]
  where
    grown :
        (fuel : ℕ) (ts : List CeremonyTransition) (set : List String)
        → (grow_pass ts set false).1 ≡ true
        → grow (suc fuel) ts set ≡ grow fuel ts (grow_pass ts set false).0
    grown fuel ts set e = ground (arith, e)

    ended :
        (fuel : ℕ) (ts : List CeremonyTransition) (set : List String)
        → (grow_pass ts set false).1 ≡ false
        → grow (suc fuel) ts set ≡ (grow_pass ts set false).0
    ended fuel ts set e = ground (arith, e)

-- The states from which the transitions lead to one of the given states.
pub data Finishes (ts : List CeremonyTransition) (ends : List String) : String → Type 0 where
  ended : (a : String) → elem a ends ≡ true → Finishes ts ends a
  onward : (a b : String) → leads ts a b ≡ true → Finishes ts ends b → Finishes ts ends a

closed_back :
    (ts : List CeremonyTransition) (set : List String) (a b : String)
    → ClosedBack ts set
    → leads ts a b ≡ true
    → elem b set ≡ true
    → elem a set ≡ true
closed_back [] set a b c e h = ground (arith, e)
closed_back (t ∷ ts) set a b c e h =
    ground (arith, c, e, h, closed_back ts set a b, eq_iff t.from a, eq_iff t.to b)

pass_keeps :
    (us : List CeremonyTransition) (set : List String) (grew : Bool) (x : String)
    → elem x set ≡ true
    → elem x (grow_pass us set grew).0 ≡ true
unfolding grow_pass
pass_keeps [] set grew x h = h
pass_keeps (u ∷ us) set grew x h = ground (
  arith,
  h,
  pass_keeps us set grew x,
  pass_keeps us (set_insert u.from set) true x,
  elem-set_insert x u.from set,
)

grow_keeps :
    (fuel : ℕ) (ts : List CeremonyTransition) (set : List String) (x : String)
    → elem x set ≡ true
    → elem x (grow fuel ts set) ≡ true
unfolding grow
grow_keeps zero ts set x h = h
grow_keeps (suc fuel) ts set x h =
    ground (arith, pass_keeps ts set false x, h, grow_keeps fuel ts (grow_pass ts set false).0 x)

module _ (ts : List CeremonyTransition) (ends : List String) where
  abbrev AllFinish : List String → Type 0
  AllFinish set = (x : String) → elem x set ≡ true → Finishes ts ends x

  added-AllFinish :
      (u : CeremonyTransition) (set : List String)
      → leads ts u.from u.to ≡ true
      → elem u.to set ≡ true
      → AllFinish set
      → AllFinish (set_insert u.from set)
  added-AllFinish u set e h s x k = elim (Bool-cases (u.from == x)) [
    | inl here ↦
        subst (Finishes ts ends) ((eq_iff u.from x).0 here)
          (Finishes.onward u.from u.to e (s u.to h))
    | inr other ↦ s x (ground (arith, other, k, elem-set_insert x u.from set))
  ]

  pass-AllFinish :
      (us : List CeremonyTransition) (set : List String) (grew : Bool)
      → AreOf ts us
      → AllFinish set
      → AllFinish (grow_pass us set grew).0
  unfolding grow_pass
  pass-AllFinish [] set grew a s x k = s x k
  pass-AllFinish (u ∷ us) set grew (e, a) s x k =
      elim (Bool-cases (elem u.to set && not (elem u.from set))) [
        | inl adds ↦
            pass-AllFinish us (set_insert u.from set) true a
              (added-AllFinish u set e (ground (arith, adds)) s) x (ground (arith, adds, k))
        | inr skips ↦ pass-AllFinish us set grew a s x (ground (arith, skips, k))
      ]

  grow-AllFinish : (fuel : ℕ) (set : List String) → AllFinish set → AllFinish (grow fuel ts set)
  unfolding grow
  grow-AllFinish zero set s x k = s x k
  grow-AllFinish (suc fuel) set s x k =
      let larger = pass-AllFinish ts set false (AreOf-self ts) s in
      elim (Bool-cases (grow_pass ts set false).1) [
        | inl e ↦ grow-AllFinish fuel (grow_pass ts set false).0 larger x (ground (arith, e, k))
        | inr e ↦ larger x (ground (arith, e, k))
      ]

  Finishes-complete :
      (set : List String)
      → ((x : String) → elem x ends ≡ true → elem x set ≡ true)
      → ClosedBack ts set
      → (x : String) → Finishes ts ends x
      → elem x set ≡ true
  Finishes-complete set h c x (Finishes.ended _ e) = h x e
  Finishes-complete set h c x (Finishes.onward _ b e f) =
      closed_back ts set x b c e (Finishes-complete set h c b f)

-- The walk backward collects a state exactly when the transitions lead from it to a terminal state,
-- and its fuel is enough.
pub states_that_reach_a_terminal_iff :
    (states : Map CeremonyState) (ts : List CeremonyTransition) (x : String)
    → (elem x (states_that_reach_a_terminal states ts) ≡ true) ↔ Finishes ts (terminal_ids states) x
unfolding states_that_reach_a_terminal
states_that_reach_a_terminal_iff states ts x =
    let ends = terminal_ids states in
    let fuel = suc (length ts) in
    let enough : outside ts ends < fuel = omega (arith, outside_le ts ends) in
    (
      grow-AllFinish ts ends fuel ends (λ y h. Finishes.ended y h) x,
      Finishes-complete ts ends (grow fuel ts ends) (λ y h. grow_keeps fuel ts ends y h)
          (grow_ends fuel ts ends enough) x,
    )
