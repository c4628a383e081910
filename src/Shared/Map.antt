-- ===== src/Shared/Map.antt =====
-- A `BTreeMap<String, V>`: an association list in the order of its keys, so that its values are
-- walked as the source walks them. `compare` on texts is the order of their bytes.
use Prim.Native.Nat.{Ordering}
use Prim.Native.String.{String, compare}
use mathlib.Core.Path.{◌≡◌, refl}
use mathlib.Core.Bool.{Bool, true, false, ◌||◌}
use mathlib.Core.List.{List, [], ◌∷◌}
use mathlib.Core.Option.{Option, none, some}
use native.Mathlib.Omega.{arith}
use text.Mathlib.Text.{◌==◌}
use text.Mathlib.TextEquality.{eq_iff}
use underpass_choreographer.Shared.Tests.{if◌then◌else◌, is_some}
use underpass_choreographer.Shared.Lists.{elem}

abbrev pub Map {ℓ} : Type ℓ → Type ℓ
Map V = List (String × V)

abbrev pub before : String → String → Bool
before k j = elim (compare k j) [ Ordering.lt ↦ true | _ ↦ false ]

module _ {ℓ} {V : Type ℓ} where
  abbrev pub lookup : String → Map V → Option V
  lookup k [] = none
  lookup k ((j, v) ∷ m) = if j == k then some v else lookup k m

  abbrev pub contains_key : String → Map V → Bool
  contains_key k m = is_some (lookup k m)

  abbrev pub insert : String → V → Map V → Map V
  insert k v [] = (k, v) ∷ []
  insert k v ((j, w) ∷ m) =
      if j == k
      then (k, v) ∷ m
      else (if before k j then (k, v) ∷ (j, w) ∷ m else (j, w) ∷ insert k v m)

  abbrev pub keys : Map V → List String
  keys [] = []
  keys ((j, _) ∷ m) = j ∷ keys m

  abbrev pub values : Map V → List V
  values [] = []
  values ((_, v) ∷ m) = v ∷ values m

  pub lookup-insert :
      (k j : String) (v : V) (m : Map V)
      → lookup j (insert k v m) ≡ (if k == j then some v else lookup j m)
  lookup-insert k j v [] = refl
  lookup-insert k j v ((i, w) ∷ m) =
      ground (arith, eq_iff k j, eq_iff i k, eq_iff i j, lookup-insert k j v m)

-- `BTreeSet<String>::insert`, in the order of the texts; whether it was new is `elem`.
abbrev pub set_insert : String → List String → List String
set_insert k [] = k ∷ []
set_insert k (x ∷ xs) =
    if x == k then x ∷ xs else (if before k x then k ∷ x ∷ xs else x ∷ set_insert k xs)

pub elem-set_insert :
    (j k : String) (xs : List String) → elem j (set_insert k xs) ≡ ((k == j) || elem j xs)
elem-set_insert j k [] = refl
elem-set_insert j k (x ∷ xs) =
    ground (arith, eq_iff x k, eq_iff k j, eq_iff x j, elem-set_insert j k xs)

-- Each value stands under its own key, and no key stands twice.
module _ {ℓ} {V : Type ℓ} (key : V → String) where
  abbrev pub IsKeyed : Map V → Type 0
  IsKeyed [] = Unit
  IsKeyed ((k, v) ∷ m) = (key v ≡ k) × (contains_key k m ≡ false) × IsKeyed m

  pub insert-IsKeyed :
      (v : V) (m : Map V)
      → contains_key (key v) m ≡ false
      → IsKeyed m
      → IsKeyed (insert (key v) v m)
  insert-IsKeyed v [] new h = (refl, refl, tt)
  insert-IsKeyed v ((j, w) ∷ m) new h =
      ground
        (arith, eq_iff j (key v), eq_iff (key v) j, lookup-insert (key v) j v m, insert-IsKeyed v m)
