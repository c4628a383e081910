-- ===== src/Deliberation/Cover.antt =====
-- Maps that cover each other: what `advance` of entities/deliberation.rs relies on when it compares
-- two lengths.
use underpass_choreographer.Shared.{
  suc, ◌≡◌, inl, inr, refl, ◌∙◌, true, false, String, [], ◌∷◌, arith, length, ◌==◌, eq_iff, eq_refl,
  Bool-cases, if◌then◌else◌, elem,
}
use underpass_choreographer.Shared.Map.{Map, contains_key, insert, keys, lookup-insert}

module _ {A : Type 0} where
  abbrev pub Distinct : Map A → Type 0
  Distinct [] = Unit
  Distinct ((k, _) ∷ m) = (contains_key k m ≡ false) × Distinct m

  pub insert-Distinct :
      (k : String) (v : A) (m : Map A)
      → contains_key k m ≡ false
      → Distinct m
      → Distinct (insert k v m)
  insert-Distinct k v [] new h = (refl, tt)
  insert-Distinct k v ((j, w) ∷ m) new h =
      ground (arith, new, h, insert-Distinct k v m, lookup-insert k j v m, eq_iff j k, eq_iff k j)

  pub elem-keys : (k : String) (m : Map A) → elem k (keys m) ≡ true → contains_key k m ≡ true
  elem-keys k [] h = ground (arith, h)
  elem-keys k ((j, v) ∷ m) h = ground (arith, h, elem-keys k m)

  abbrev remove : String → Map A → Map A
  remove k [] = []
  remove k ((j, v) ∷ m) = if j == k then m else (j, v) ∷ remove k m

  length-remove :
      (k : String) (m : Map A) → contains_key k m ≡ true → suc (length (remove k m)) ≡ length m
  length-remove k [] h = ground (arith, h)
  length-remove k ((j, v) ∷ m) h = ground (arith, h, length-remove k m)

  contains_key-remove :
      (k j : String) (m : Map A) → (k == j) ≡ false → contains_key j (remove k m) ≡ contains_key j m
  contains_key-remove k j [] h = refl
  contains_key-remove k j ((i, v) ∷ m) h =
      ground (arith, h, eq_iff i k, eq_iff i j, eq_iff k j, contains_key-remove k j m)

fewer :
    {A B : Type 0} (i : String) (v : A) (m : Map A) (n : Map B)
    → contains_key i m ≡ false
    → ((k : String) → contains_key k ((i, v) ∷ m) ≡ true → contains_key k n ≡ true)
    → (k : String) → contains_key k m ≡ true
    → contains_key k (remove i n) ≡ true
fewer i v m n new s k h = elim (Bool-cases (i == k)) [
  | inl here ↦ ground (arith, new, h, here, eq_iff i k)
  | inr other ↦ contains_key-remove i k n other ∙ s k (ground (arith, other, h))
]

-- A map without repeated keys whose keys all stand in another one, which is no longer, has them all.
pub covers :
    {A B : Type 0} (m : Map A) (n : Map B)
    → Distinct m
    → ((k : String) → contains_key k m ≡ true → contains_key k n ≡ true)
    → length m ≡ length n
    → (k : String) → contains_key k n ≡ true
    → contains_key k m ≡ true
covers [] [] d s l k h = h
covers [] (x ∷ n) d s l k h = ground (arith, l)
covers ((i, v) ∷ m) n (new, d) s l k h = elim (Bool-cases (i == k)) [
  | inl here ↦ ground (arith, here)
  | inr other ↦
      let rest =
        covers m (remove i n) d (fewer i v m n new s)
          (omega (arith, l, length-remove i n (s i (ground (arith, eq_refl i))))) k
          (contains_key-remove i k n other ∙ h) in
      ground (arith, other, rest)
]
