-- ===== src/Tests/Journals.antt =====
-- A journal of two records, on a platform whose digest is the content itself.
use underpass_choreographer.Shared.{
  ℕ, ◌≡◌, ◌↔◌, ◌⊎◌, refl, String, Option, none, some, [], ◌∷◌, arith, length, codes, u64_max,
  saturating_add,
}
use text.Mathlib.TextEquality.{Char-path}
use underpass_choreographer.Shared.Result.{ok}
use underpass_choreographer.Ceremony.Instance.Data.{AuditActorKind}
use underpass_choreographer.Audit.Bytes.{Bytes, write_field, write_optional}
use underpass_choreographer.Audit.Record.{
  AuditRecord, AuditFact, AuditEventType, Platform, following, seal, compute_hash, canonical,
  digest_is_intact, zero_hash,
}
use underpass_choreographer.Audit.Encoding.{Fits, canonical_injective}
use underpass_choreographer.Audit.Chain.{
  AuditChainVerdict, verify, verify_iff, IsChain, next_sequence, root_defect, digest_defect,
}
use underpass_choreographer.Audit.Tamper.{
  verify-following, next_sequence_counts, tamper_evident, Collision,
}

pub codes_injective : (s t : String) → codes s ≡ codes t → s ≡ t
codes_injective String.[] String.[] h = refl
codes_injective String.[] (String.◌∷◌ d t) h = ground arith
codes_injective (String.◌∷◌ c s) String.[] h = ground arith
codes_injective (String.◌∷◌ c s) (String.◌∷◌ d t) h =
    ground (arith, Char-path c d, codes_injective s t)

pub moment_injective :
    (s t : ℕ) (b : Bytes) → some (s ∷ []) ≡ some b → some (t ∷ []) ≡ some b → s ≡ t
moment_injective s t b h h' = ground arith

instance abbrev pub plain : Platform
plain = record {
  as_bytes = codes;
  format = λ t. some (t ∷ []);
  sha256 = λ b. b;
  as_bytes-injective = codes_injective;
  format-injective = moment_injective;
}

abbrev pub fact : String → ℕ → AuditFact
fact id at = record {
  event_id = id;
  event_type = AuditEventType.step_started;
  ceremony_id = "c-1";
  definition_name = "essay";
  definition_version = "1";
  occurred_at = at;
  actor = record { actor_id = "w-1"; kind = AuditActorKind.agent; role_id = some "author" };
  correlation_id = none;
  causation_id = none;
  trace_id = none;
}

abbrev pub drafted : ℕ → Option Bytes → String → ℕ → AuditRecord
drafted sequence previous id at = record {
  event_id = id;
  event_type = AuditEventType.step_started;
  schema_version = 1;
  ceremony_id = "c-1";
  definition_name = "essay";
  definition_version = "1";
  sequence = sequence;
  occurred_at = at;
  actor = record { actor_id = "w-1"; kind = AuditActorKind.agent; role_id = some "author" };
  correlation_id = none;
  causation_id = none;
  trace_id = none;
  previous_record_hash = previous;
  record_hash = zero_hash;
}

abbrev pub sealed_record : ℕ → Option Bytes → String → ℕ → AuditRecord
sealed_record sequence previous id at =
    let r = drafted sequence previous id at in record r { record_hash = canonical r (at ∷ []) }

abbrev pub one : AuditRecord
one = sealed_record 1 none "e-1" 20

abbrev two : AuditRecord
two = sealed_record 2 (some one.record_hash) "e-2" 30

one_verifies : verify (one ∷ []) ≡ AuditChainVerdict.intact
unfolding verify root_defect digest_defect digest_is_intact compute_hash canonical write_field
    write_optional
one_verifies = refl

two_follows : following (fact "e-2" 30) one ≡ ok two
unfolding following seal compute_hash canonical write_field write_optional
two_follows = refl

verify_iff_example : (verify (one ∷ []) ≡ AuditChainVerdict.intact) ↔ IsChain (one ∷ [])
verify_iff_example = verify_iff (one ∷ [])

verify-following_example : verify (one ∷ two ∷ []) ≡ AuditChainVerdict.intact
verify-following_example =
    verify-following (one ∷ []) one two (fact "e-2" 30) one_verifies refl two_follows

both_verify : verify (one ∷ two ∷ []) ≡ AuditChainVerdict.intact
both_verify = verify-following (one ∷ []) one two (fact "e-2" 30) one_verifies refl two_follows

next_sequence_counts_example :
    next_sequence (one ∷ []) ≡ saturating_add u64_max (length (one ∷ [])) 1
next_sequence_counts_example = next_sequence_counts (one ∷ []) one_verifies

one-Fits : Fits one
unfolding canonical write_field write_optional
one-Fits = record {
  schema_version = omega arith;
  sequence = omega arith;
  event_id = omega arith;
  event_type = omega arith;
  ceremony_id = omega arith;
  definition_name = omega arith;
  definition_version = omega arith;
  actor_id = omega arith;
  actor_kind = omega arith;
  role_id = omega arith;
  correlation_id = tt;
  causation_id = tt;
  trace_id = tt;
  previous = tt;
  moment = omega arith;
}

two-Fits : Fits two
unfolding canonical write_field write_optional
two-Fits = record {
  schema_version = omega arith;
  sequence = omega arith;
  event_id = omega arith;
  event_type = omega arith;
  ceremony_id = omega arith;
  definition_name = omega arith;
  definition_version = omega arith;
  actor_id = omega arith;
  actor_kind = omega arith;
  role_id = omega arith;
  correlation_id = tt;
  causation_id = tt;
  trace_id = tt;
  previous = omega arith;
  moment = omega arith;
}

canonical_injective_example : one ≡ record one { record_hash = one.record_hash }
canonical_injective_example =
    canonical_injective one one (20 ∷ []) (20 ∷ []) one-Fits one-Fits refl refl refl

tamper_evident_example : ((one ∷ two ∷ []) ≡ (one ∷ two ∷ [])) ⊎ Collision
tamper_evident_example =
    tamper_evident (one ∷ two ∷ []) (one ∷ two ∷ []) (omega arith) (omega arith)
      (one-Fits, (two-Fits, tt)) (one-Fits, (two-Fits, tt)) both_verify both_verify refl
