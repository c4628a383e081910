-- ===== src/Store/Data.antt =====
-- What a store keeps: entities/ceremony_commit.rs, ceremony_revision.rs and expected_revision.rs of
-- value_objects/ceremony, and value_objects/outbox of crates/choreo-core; the records of
-- crates/choreo-adapters/src/memory/ceremony_store.rs. A payload is a JSON value, as are the
-- values of an instance.
use underpass_choreographer.Shared.{
  ℕ, Bool, true, false, not, ◌&&◌, Option, none, some, String, List, [], nat_eq, leb, if◌then◌else◌,
  u32_max, u64_max, saturating_add, option_any, is_some, any, trim, is_whitespace, ◌==◌,
}
use underpass_choreographer.Shared.Map.{Map}
use underpass_choreographer.Shared.Result.{
  Result, ok, err, must_be_non_zero, empty_field, invariant_violated, ensure, ◌>>◌,
}
use underpass_choreographer.Ceremony.Step.Lease.{Time}
use underpass_choreographer.Ceremony.Content.{check_trimmed}
use underpass_choreographer.Ceremony.Instance.Data.{CeremonyInstance}
use underpass_choreographer.Audit.Record.{AuditRecord, AuditFact}

abbrev pub initial_revision : ℕ
initial_revision = 1

-- `CeremonyRevision::new` and `next`.
unfoldable pub revision_new : ℕ → Result ℕ
revision_new value = if nat_eq value 0 then err (must_be_non_zero "ceremony_revision") else ok value

abbrev pub revision_next : ℕ → ℕ
revision_next n = saturating_add u64_max n 1

pub data ExpectedRevision : Type 0 where
  new : ExpectedRevision
  exactly : ℕ → ExpectedRevision

unfoldable pub matches : ExpectedRevision → Option ℕ → Bool
matches ExpectedRevision.new none = true
matches ExpectedRevision.new (some stored) = false
matches (ExpectedRevision.exactly expected) none = false
matches (ExpectedRevision.exactly expected) (some stored) = nat_eq expected stored

unfoldable pub resulting_revision : ExpectedRevision → ℕ
resulting_revision ExpectedRevision.new = initial_revision
resulting_revision (ExpectedRevision.exactly stored) = revision_next stored

-- `OutboxAttempt`: `NONE` is 0.
abbrev pub attempt_next : ℕ → ℕ
attempt_next n = saturating_add u32_max n 1

abbrev pub is_exhausted : ℕ → ℕ → Bool
is_exhausted max_attempts attempt = leb max_attempts attempt

-- `OutboxSubject::new`
unfoldable pub outbox_subject_new : String → Result String
outbox_subject_new raw = check_trimmed is_whitespace "outbox_subject" 256 (trim raw)

-- `OutboxQuarantineReason::new`: no character is forbidden.
unfoldable pub quarantine_reason_new : String → Result String
quarantine_reason_new raw = check_trimmed (λ c. false) "outbox_quarantine_reason" 512 (trim raw)

pub record OutboxMessage (V : Type 0) : Type 0 where
  pub event_id : String
  pub subject : String
  pub payload : V
  pub enqueued_at : Time

-- `OutboxMessage::new`; `is_null` is `serde_json::Value::is_null`.
unfoldable pub outbox_message_new :
    {V : Type 0} → (V → Bool) → String → String → V → Time → Result (OutboxMessage V)
outbox_message_new is_null event_id subject payload enqueued_at = do
  ensure (not (is_null payload)) (empty_field "outbox_message.payload")
  ok (record {
    event_id = event_id;
    subject = subject;
    payload = payload;
    enqueued_at = enqueued_at;
  })

pub record ClaimedOutboxMessage (V : Type 0) : Type 0 where
  pub message : OutboxMessage V
  pub attempt : ℕ

pub record CeremonyCommit (V : Type 0) : Type 0 where
  pub instance_state : CeremonyInstance V
  pub expected_revision : ExpectedRevision
  pub facts : List AuditFact
  pub messages : List (OutboxMessage V)

-- `CeremonyCommit::new`
unfoldable pub commit_new :
    {V : Type 0}
    → CeremonyInstance V
    → ExpectedRevision
    → List AuditFact
    → List (OutboxMessage V)
    → Result (CeremonyCommit V)
commit_new s expected facts messages = do
  ensure (not (any (λ f. not (f.ceremony_id == s.id)) facts))
      (invariant_violated "a commit cannot carry audit facts from another ceremony")
  ok (record {
    instance_state = s;
    expected_revision = expected;
    facts = facts;
    messages = messages;
  })

pub data CommitOutcome : Type 0 where
  committed : ℕ → List AuditRecord → CommitOutcome
  conflict : ExpectedRevision → Option ℕ → CommitOutcome

pub record StoredOutboxMessage (V : Type 0) : Type 0 where
  pub message : OutboxMessage V
  pub attempt : ℕ
  pub claimed_until : Option Time
  pub delivered : Bool
  pub quarantine_reason : Option String

pub record StoredCeremony (V : Type 0) : Type 0 where
  pub stored_revision : Option ℕ
  pub stored_instance : Option (CeremonyInstance V)
  pub journal : List AuditRecord
  pub outbox : List (StoredOutboxMessage V)

abbrev pub Store : Type 0 → Type 0
Store V = Map (StoredCeremony V)

module _ {V : Type 0} where
  -- `StoredCeremony::default`
  abbrev pub vacant : StoredCeremony V
  vacant = record { stored_revision = none; stored_instance = none; journal = []; outbox = [] }

  -- `StoredOutboxMessage::new`
  abbrev pub entry_new : OutboxMessage V → StoredOutboxMessage V
  entry_new m = record {
    message = m;
    attempt = 0;
    claimed_until = none;
    delivered = false;
    quarantine_reason = none;
  }

  unfoldable pub is_claimable : Time → StoredOutboxMessage V → Bool
  is_claimable now e =
      not e.delivered
      && not (is_some e.quarantine_reason)
      && not (option_any (λ until. not (leb until now)) e.claimed_until)
