-- ===== src/Ceremony/Attributes.antt =====
-- value_objects/attributes.rs: a bag of JSON values under text keys.
use underpass_choreographer.Shared.{
  ℕ, ◌≡◌, Bool, Option, some, List, [], ◌∷◌, String, ⊤, leb, length, is_blank, not,
}
use underpass_choreographer.Shared.Map.{Map, keys}
use underpass_choreographer.Shared.Result.{Result, ok, empty_field, out_of_range, ensure, ◌>>◌}

-- What the program uses of `serde_json::Value`: the constructor `Bool`, the reader `as_bool`, and
-- that reading a Boolean back gives it.
pub record Json (V : Type 0) : Type 0 where
  pub of_bool : Bool → V
  pub as_bool : V → Option Bool
  pub as_bool-of_bool : (b : Bool) → as_bool (of_bool b) ≡ some b

abbrev pub max_attributes_keys : ℕ
max_attributes_keys = 1024

abbrev pub Attributes : Type 0 → Type 0
Attributes V = Map V

-- The loop over the keys: the first blank one is refused.
abbrev pub check_keys : List String → Result ⊤
check_keys [] = ok tt
check_keys (k ∷ ks) = ensure (not (is_blank k)) (empty_field "attributes.key") >> check_keys ks

-- `Attributes::new`
unfoldable pub attributes_new : {V : Type 0} → Map V → Result (Attributes V)
attributes_new entries = do
  ensure (leb (length entries) max_attributes_keys)
      (out_of_range "attributes.keys" (length entries) 0 max_attributes_keys)
  check_keys (keys entries)
  ok entries
