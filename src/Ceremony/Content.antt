-- ===== src/Ceremony/Content.antt =====
-- value_objects/ceremony/ceremony_intervention_content.rs, ceremony_guard_deferral_content.rs and
-- step_error_message.rs: validated texts.
use underpass_choreographer.Shared.{
  ℕ, Bool, ◌&&◌, ◌||◌, not, String, len, List, [], ◌∷◌, any, is_empty, leb, trim, is_empty_text,
  in_range, codes, nat_eq,
}
use underpass_choreographer.Shared.Result.{
  Result, ok, empty_field, field_too_long, invalid_characters, empty_collection, ensure, ◌>>=◌,
  ◌>>◌,
}
use underpass_choreographer.Ceremony.Attributes.{Attributes}

-- `char::is_control`: the general category Cc.
abbrev pub is_control : ℕ → Bool
is_control c = leb c 0x1f || in_range 0x7f 0x9f c

abbrev is_line_or_tab : ℕ → Bool
is_line_or_tab c = nat_eq c 10 || nat_eq c 13 || nat_eq c 9

-- What the three constructors check of a trimmed text; `forbidden` is the test of a character.
abbrev pub check_trimmed : (ℕ → Bool) → String → ℕ → String → Result String
check_trimmed forbidden field max_len trimmed = do
  ensure (not (is_empty_text trimmed)) (empty_field field)
  ensure (leb (len trimmed) max_len) (field_too_long field (len trimmed) max_len)
  ensure (not (any forbidden (codes trimmed))) (invalid_characters field)
  ok trimmed

-- `validated_text` of ceremony_guard_deferral_content.rs.
unfoldable pub validated_text : String → String → ℕ → Result String
validated_text value field max_len =
    check_trimmed (λ c. is_control c && not (is_line_or_tab c)) field max_len (trim value)

-- `StepErrorMessage::new`
unfoldable pub error_message_new : String → Result String
error_message_new raw = check_trimmed is_control "step_error_message" 2048 (trim raw)

pub record CeremonyInterventionContent (V : Type 0) : Type 0 where
  pub message : String
  pub details : Attributes V

-- `CeremonyInterventionContent::new`
unfoldable pub intervention_content_new :
    {V : Type 0} → String → Attributes V → Result (CeremonyInterventionContent V)
unfolding validated_text
intervention_content_new message details = do
  trimmed ← validated_text message "ceremony_intervention.message" 16384
  ok (record { message = trimmed; details = details })

pub record CeremonyGuardDeferralContent : Type 0 where
  pub statement : String
  pub reason : String
  pub reconsider_when : List String

-- The `map` and `collect` over the conditions: the first that is refused ends it.
abbrev validated_conditions : List String → Result (List String)
validated_conditions [] = ok []
validated_conditions (c ∷ cs) = do
  first ← validated_text c "ceremony_guard_deferral.reconsider_when" 1024
  rest ← validated_conditions cs
  ok (first ∷ rest)

-- `CeremonyGuardDeferralContent::new`
unfoldable pub deferral_content_new :
    String → String → List String → Result CeremonyGuardDeferralContent
unfolding validated_text
deferral_content_new statement reason reconsider_when = do
  ensure (not (is_empty reconsider_when))
      (empty_collection "ceremony_guard_deferral.reconsider_when")
  statement' ← validated_text statement "ceremony_guard_deferral.statement" 4096
  reason' ← validated_text reason "ceremony_guard_deferral.reason" 4096
  conditions ← validated_conditions reconsider_when
  ok (record { statement = statement'; reason = reason'; reconsider_when = conditions })
