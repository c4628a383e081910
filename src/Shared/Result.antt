-- ===== src/Shared/Result.antt =====
-- crates/choreo-core/src/error.rs: the domain errors, and `Result<T, DomainError>`.
use Prim.Native.Nat.{ℕ}
use Prim.Native.String.{String}
use mathlib.Core.Path.{◌≡◌, refl}
use mathlib.Core.Logic.{◌⊎◌, inl, inr}
use mathlib.Core.Bool.{Bool, true, false}
use mathlib.Core.Option.{Option, none, some}
use underpass_choreographer.Shared.Tests.{⊤}

-- The numbers of `out_of_range` are those that the source converts to `f64` for the message.
pub data DomainError : Type 0 where
  empty_field : String → DomainError
  field_too_long : String → ℕ → ℕ → DomainError
  invalid_characters : String → DomainError
  out_of_range : String → ℕ → ℕ → ℕ → DomainError
  must_be_non_zero : String → DomainError
  empty_collection : String → DomainError
  invalid_transition : String → String → DomainError
  invariant_violated : String → DomainError
  not_found : String → DomainError
  already_exists : String → DomainError
  conflict : String → DomainError
  no_valid_proposal : String → DomainError

pub data Result {ℓ} (A : Type ℓ) : Type ℓ where
  ok : A → Result A
  err : DomainError → Result A

infixl 5 ◌>>=◌ ◌>>◌
abbrev pub ◌>>=◌ {ℓ κ} : {A : Type ℓ} {B : Type κ} → Result A → (A → Result B) → Result B
ok a >>= f = f a
err e >>= f = err e

abbrev pub ◌>>◌ {ℓ} : {B : Type ℓ} → Result ⊤ → Result B → Result B
m >> k = m >>= λ _. k

-- `if !test { return Err(e) }`
abbrev pub ensure : Bool → DomainError → Result ⊤
ensure true e = ok tt
ensure false e = err e

-- `Option::ok_or`
abbrev pub ok_or {ℓ} : {A : Type ℓ} → Option A → DomainError → Result A
ok_or none e = err e
ok_or (some a) e = ok a

abbrev pub is_ok {ℓ} : {A : Type ℓ} → Result A → Bool
is_ok (ok _) = true
is_ok (err _) = false

pub Result-cases :
    {A : Type 0} (r : Result A) → ((e : DomainError) × (r ≡ err e)) ⊎ ((x : A) × (r ≡ ok x))
Result-cases (err e) = inl (e, refl)
Result-cases (ok x) = inr (x, refl)
