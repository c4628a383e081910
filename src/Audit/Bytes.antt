-- ===== src/Audit/Bytes.antt =====
-- Bytes in a buffer: numbers in big-endian order and length-prefixed fields, with what makes them
-- readable again. entities/audit_record.rs, `write_field` and `write_optional`.
use underpass_choreographer.Shared.{
  ℕ, zero, suc, ◌*◌, ◌/◌, ◌%◌, ◌^◌, ◌<◌, ◌≡◌, refl, sym, ap, ◌∙◌, Bool, true, false, ◌&&◌, Option,
  none, some, List, [], ◌∷◌, ◌++◌, arith, length, nat_eq, nat_eq_iff, ◌↔◌,
}
use native.Mathlib.Nat.{pow-succ'}

abbrev pub Bytes : Type 0
Bytes = List ℕ

-- `to_be_bytes` of a number that takes so many bytes.
abbrev pub be_bytes : ℕ → ℕ → Bytes
be_bytes zero n = []
be_bytes (suc w) n = be_bytes w (n / 256) ++ (n % 256) ∷ []

-- What `write_field` appends.
unfoldable pub write_field : Bytes → Bytes
write_field value = be_bytes 8 (length value) ++ value

-- What `write_optional` appends.
unfoldable pub write_optional : Option Bytes → Bytes
write_optional none = 0 ∷ []
write_optional (some value) = 1 ∷ write_field value

-- The derived equality of byte arrays.
abbrev pub bytes_eq : Bytes → Bytes → Bool
bytes_eq [] [] = true
bytes_eq (x ∷ xs) (y ∷ ys) = nat_eq x y && bytes_eq xs ys
bytes_eq _ _ = false

pub bytes_eq_iff : (xs ys : Bytes) → (bytes_eq xs ys ≡ true) ↔ (xs ≡ ys)
bytes_eq_iff [] [] = ground arith
bytes_eq_iff [] (y ∷ ys) = ground arith
bytes_eq_iff (x ∷ xs) [] = ground arith
bytes_eq_iff (x ∷ xs) (y ∷ ys) = ground (arith, nat_eq_iff x y, bytes_eq_iff xs ys)

append_assoc : {A : Type 0} (xs ys zs : List A) → ((xs ++ ys) ++ zs) ≡ (xs ++ (ys ++ zs))
append_assoc [] ys zs = refl
append_assoc (x ∷ xs) ys zs = ap (λ t. x ∷ t) (append_assoc xs ys zs)

-- What makes a field readable: it says where it ends.
pub append_cancel :
    (a b xs ys : Bytes) → length a ≡ length b → (a ++ xs) ≡ (b ++ ys) → (a ≡ b) × (xs ≡ ys)
append_cancel [] [] xs ys l h = (refl, h)
append_cancel [] (y ∷ b) xs ys l h = ground arith
append_cancel (x ∷ a) [] xs ys l h = ground arith
append_cancel (x ∷ a) (y ∷ b) xs ys l h = ground (arith, append_cancel a b xs ys)

quotient_lt : (x n : ℕ) → n < 256 * x → n / 256 < x
quotient_lt x n h = omega arith

quotient_remainder : (n m : ℕ) → n / 256 ≡ m / 256 → n % 256 ≡ m % 256 → n ≡ m
quotient_remainder n m h h' = omega arith

cons_inj : (a b : ℕ) (xs ys : Bytes) → (a ∷ xs) ≡ (b ∷ ys) → (a ≡ b) × (xs ≡ ys)
cons_inj a b xs ys h = ground arith

pub be_bytes_cancel :
    (w n m : ℕ) (xs ys : Bytes)
    → n < 256 ^ w
    → m < 256 ^ w
    → (be_bytes w n ++ xs) ≡ (be_bytes w m ++ ys)
    → (n ≡ m) × (xs ≡ ys)
be_bytes_cancel zero n m xs ys hn hm h = (omega arith, h)
be_bytes_cancel (suc w) n m xs ys hn hm h =
    let (q, rest) =
      be_bytes_cancel w (n / 256) (m / 256) (n % 256 ∷ xs) (m % 256 ∷ ys)
        (quotient_lt (256 ^ w) n (omega (arith, hn, pow-succ' 256 w)))
        (quotient_lt (256 ^ w) m (omega (arith, hm, pow-succ' 256 w)))
        (sym (append_assoc (be_bytes w (n / 256)) (n % 256 ∷ []) xs)
          ∙ h
          ∙ append_assoc (be_bytes w (m / 256)) (m % 256 ∷ []) ys) in
    let (r, tail) = cons_inj (n % 256) (m % 256) xs ys rest in (quotient_remainder n m q r, tail)

pub write_field_cancel :
    (a b xs ys : Bytes)
    → length a < 256 ^ 8
    → length b < 256 ^ 8
    → (write_field a ++ xs) ≡ (write_field b ++ ys)
    → (a ≡ b) × (xs ≡ ys)
unfolding write_field
write_field_cancel a b xs ys ha hb h =
    let (l, rest) = be_bytes_cancel 8 (length a) (length b) (a ++ xs) (b ++ ys) ha hb (
      sym (append_assoc (be_bytes 8 (length a)) a xs)
      ∙ h
      ∙ append_assoc (be_bytes 8 (length b)) b ys) in
    append_cancel a b xs ys l rest

abbrev pub OptionFits : Option Bytes → Type 0
OptionFits none = Unit
OptionFits (some a) = length a < 256 ^ 8

pub write_optional_cancel :
    (a b : Option Bytes) (xs ys : Bytes)
    → OptionFits a
    → OptionFits b
    → (write_optional a ++ xs) ≡ (write_optional b ++ ys)
    → (a ≡ b) × (xs ≡ ys)
unfolding write_optional
write_optional_cancel none none xs ys ha hb h = (refl, (cons_inj 0 0 xs ys h).1)
write_optional_cancel none (some b) xs ys ha hb h = ground (arith, h)
write_optional_cancel (some a) none xs ys ha hb h = ground (arith, h)
write_optional_cancel (some a) (some b) xs ys ha hb h =
    let (e, rest) =
      write_field_cancel a b xs ys ha hb
        (cons_inj 1 1 (write_field a ++ xs) (write_field b ++ ys) h).1 in
    (ap some e, rest)
