-- ===== src/Ceremony/Reason.antt =====
-- value_objects/ceremony/ceremony_reason.rs, ceremony_reason_kind.rs and ceremony_record_ref.rs,
-- with value_objects/memory/memory_confidence.rs.
use underpass_choreographer.Shared.{
  ℕ, Bool, false, ◌&&◌, not, String, Option, leb, nat_eq, ◌==◌, trim, is_empty_text, char_count,
}
use underpass_choreographer.Shared.Result.{
  Result, ok, invariant_violated, empty_field, field_too_long, ensure, ◌>>◌,
}
use underpass_choreographer.Ceremony.Step.Lease.{Time}

pub data MemoryConfidence : Type 0 where
  high medium low : MemoryConfidence

pub data ReasonAsserter : Type 0 where
  the_engine its_author any_seat : ReasonAsserter

pub data CeremonyReasonKind : Type 0 where
  answers chosen_because authorizes achieved_by follows_from : CeremonyReasonKind
  satisfies_constraint violates_constraint supersedes contradicts : CeremonyReasonKind

abbrev pub asserter : CeremonyReasonKind → ReasonAsserter
asserter answers = the_engine
asserter authorizes = its_author
asserter chosen_because = its_author
asserter achieved_by = its_author
asserter follows_from = any_seat
asserter satisfies_constraint = any_seat
asserter violates_constraint = any_seat
asserter supersedes = any_seat
asserter contradicts = any_seat

pub data CeremonyRecordRef : Type 0 where
  step : String → CeremonyRecordRef
  agenda_item : String → CeremonyRecordRef
  contribution : String → ℕ → CeremonyRecordRef
  guard_decision : String → CeremonyRecordRef
  transition : ℕ → CeremonyRecordRef

-- The derived equality of references.
abbrev pub ref_eq : CeremonyRecordRef → CeremonyRecordRef → Bool
ref_eq (step a) (step b) = a == b
ref_eq (agenda_item a) (agenda_item b) = a == b
ref_eq (contribution a n) (contribution b m) = (a == b) && nat_eq n m
ref_eq (guard_decision a) (guard_decision b) = a == b
ref_eq (transition n) (transition m) = nat_eq n m
ref_eq _ _ = false

abbrev pub max_why : ℕ
max_why = 512

pub record CeremonyReason : Type 0 where
  pub from : CeremonyRecordRef
  pub to : CeremonyRecordRef
  pub kind : CeremonyReasonKind
  pub why : String
  pub confidence : MemoryConfidence
  pub asserted_by : Option String
  pub asserted_at : Time

-- `CeremonyReason::new`
unfoldable pub reason_new :
    CeremonyRecordRef
    → CeremonyRecordRef
    → CeremonyReasonKind
    → String
    → MemoryConfidence
    → Option String
    → Time
    → Result CeremonyReason
reason_new from to kind why confidence asserted_by asserted_at = do
  ensure (not (ref_eq from to)) (invariant_violated "nothing in a session explains itself")
  ensure (not (is_empty_text (trim why))) (empty_field "ceremony_reason.why")
  ensure (leb (char_count (trim why)) max_why)
      (field_too_long "ceremony_reason.why" (char_count (trim why)) max_why)
  ok (record {
    from = from;
    to = to;
    kind = kind;
    why = trim why;
    confidence = confidence;
    asserted_by = asserted_by;
    asserted_at = asserted_at;
  })
