-- ===== src/Ceremony/Definition/Lookup.antt =====
-- What a well-formed definition says of the transitions and the steps that are looked up in it.
use underpass_choreographer.Shared.{
  ◌≡◌, subst, inl, inr, Bool-cases, Bool, true, ◌&&◌, String, some, List, [], ◌∷◌, All, arith, find,
  ◌==◌, eq_iff,
}
use underpass_choreographer.Shared.Map.{Map, lookup}
use underpass_choreographer.Ceremony.Definition.Data.{
  CeremonyTransition, CeremonyDefinition, CeremonyStep, transition_for_trigger,
}
use underpass_choreographer.Ceremony.Definition.WellFormed.{
  WellFormed, IsLive, TransitionIsSound, StepsAreSound,
}
use underpass_choreographer.Ceremony.Definition.Data.{CeremonyState}

find-All :
    {A : Type 0} (P : A → Type 0) (p : A → Bool) (xs : List A) {x : A}
    → All P xs
    → find p xs ≡ some x
    → P x × (p x ≡ true)
find-All P p [] h e = cc
find-All P p (y ∷ xs) {x} h e = elim (Bool-cases (p y)) [
  | inl here ↦
      let same : y ≡ x = ground (arith, here) in
      (subst P same h.0, subst (λ z. p z ≡ true) same here)
  | inr there ↦ find-All P p xs h.1 (rw there at e)
]

module _ {V : Type 0} (d : CeremonyDefinition V) (w : WellFormed d) where
  -- The transition that a trigger finds leaves the state, by that trigger, and is sound.
  pub found_transition :
      (a trigger : String) {t : CeremonyTransition}
      → transition_for_trigger d a trigger ≡ some t
      → TransitionIsSound d.states d.guards t × (t.from ≡ a) × (t.trigger ≡ trigger)
  unfolding transition_for_trigger
  found_transition a trigger {t} e =
      let (sound, test) =
        find-All (TransitionIsSound d.states d.guards)
          (λ u. (u.from == a) && (u.trigger == trigger)) d.transitions w.transitions_sound e in
      (sound, ground (arith, eq_iff t.from a, test), ground (arith, eq_iff t.trigger trigger, test))

lookup_step :
    {V : Type 0} (states : Map CeremonyState) (steps : Map (CeremonyStep V)) (k : String)
    {s : CeremonyStep V}
    → StepsAreSound states steps
    → lookup k steps ≡ some s
    → IsLive states s.state_id
lookup_step states [] k h e = cc
lookup_step states ((j, x) ∷ steps) k {s} h e = elim (Bool-cases (j == k)) [
  | inl here ↦
      let same : x ≡ s = ground (arith, here) in subst (λ y. IsLive states y.state_id) same h.0
  | inr there ↦ lookup_step states steps k h.1 (rw there at e)
]

module _ {V : Type 0} (d : CeremonyDefinition V) (w : WellFormed d) where
  -- A step that is declared is owned by a live state.
  pub found_step :
      (k : String) {s : CeremonyStep V} → lookup k d.steps ≡ some s → IsLive d.states s.state_id
  found_step k e = lookup_step d.states d.steps k w.steps_sound e
