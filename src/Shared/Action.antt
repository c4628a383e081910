-- ===== src/Shared/Action.antt =====
-- A method that takes `&mut self`: it returns the state as it left it, also when it returns early
-- with an error, so that what was written before a `?` stays written.
use mathlib.Core.Bool.{Bool}
use underpass_choreographer.Shared.Tests.{⊤}
use underpass_choreographer.Shared.Result.{Result, ok, err, DomainError, ensure}

abbrev pub Action : Type 0 → Type 0 → Type 0
Action S A = S → S × Result A

module _ {S : Type 0} where
  abbrev pub pure : {A : Type 0} → A → Action S A
  pure a s = (s, ok a)

  abbrev pub get : Action S S
  get s = (s, ok s)

  abbrev pub put : S → Action S ⊤
  put t s = (t, ok tt)

  -- A call of a method that takes `&self`.
  abbrev pub check : {A : Type 0} → (S → Result A) → Action S A
  check f s = (s, f s)

  abbrev pub lift : {A : Type 0} → Result A → Action S A
  lift r s = (s, r)

  abbrev pub guard : Bool → DomainError → Action S ⊤
  guard b e s = (s, ensure b e)

  infixl 5 ◌>>=◌ ◌>>◌
  abbrev pub ◌>>=◌ : {A B : Type 0} → Action S A → (A → Action S B) → Action S B
  ◌>>=◌ m f s = let (s', r) = m s in elim r [ ok a ↦ f a s' | err e ↦ (s', err e) ]

  abbrev pub ◌>>◌ : {A B : Type 0} → Action S A → Action S B → Action S B
  m >> k = m >>= λ _. k
