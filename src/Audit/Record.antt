-- ===== src/Audit/Record.antt =====
-- entities/audit_record.rs, with audit_sequence.rs, audit_event_type.rs, audit_actor.rs and
-- audit_actor_kind.rs of value_objects/audit. An `AuditSequence` is a u64 that is not zero; an
-- `AuditRecordHash` is 32 bytes; of a `TraceContext` only its trace id is read.
use underpass_choreographer.Shared.{
  ℕ, ◌≡◌, Bool, false, ◌&&◌, String, ◌==◌, Option, none, some, [], ◌++◌, nat_eq, if◌then◌else◌,
  u64_max, saturating_add,
}
use underpass_choreographer.Shared.Result.{
  Result, ok, err, invariant_violated, must_be_non_zero, ensure, ok_or, ◌>>=◌, ◌>>◌,
}
use underpass_choreographer.Ceremony.Step.Lease.{Time}
use underpass_choreographer.Ceremony.Instance.Data.{AuditActorKind}
use underpass_choreographer.Audit.Bytes.{Bytes, be_bytes, write_field, write_optional, bytes_eq}

abbrev pub first_sequence : ℕ
first_sequence = 1

-- `AuditSequence::new`, `next`, `follows` and `is_first`.
unfoldable pub sequence_new : ℕ → Result ℕ
sequence_new value = if nat_eq value 0 then err (must_be_non_zero "audit_sequence") else ok value

abbrev pub sequence_next : ℕ → ℕ
sequence_next n = saturating_add u64_max n 1

abbrev pub follows : ℕ → ℕ → Bool
follows n previous = nat_eq n (saturating_add u64_max previous 1)

abbrev pub is_first : ℕ → Bool
is_first n = nat_eq n first_sequence

pub data AuditEventType : Type 0 where
  ceremony_definition_validated ceremony_definition_published ceremony_instance_started step_started
        step_completed step_failed transition_applied intervention_requested intervention_responded
        intervention_closed evidence_collected participants_bound reason_asserted
        human_approval_recorded human_deferral_recorded ceremony_completed ceremony_failed :
      AuditEventType

abbrev pub event_type_name : AuditEventType → String
event_type_name AuditEventType.ceremony_definition_validated = "ceremony_definition_validated"
event_type_name AuditEventType.ceremony_definition_published = "ceremony_definition_published"
event_type_name AuditEventType.ceremony_instance_started = "ceremony_instance_started"
event_type_name AuditEventType.step_started = "step_started"
event_type_name AuditEventType.step_completed = "step_completed"
event_type_name AuditEventType.step_failed = "step_failed"
event_type_name AuditEventType.transition_applied = "transition_applied"
event_type_name AuditEventType.intervention_requested = "intervention_requested"
event_type_name AuditEventType.intervention_responded = "intervention_responded"
event_type_name AuditEventType.intervention_closed = "intervention_closed"
event_type_name AuditEventType.evidence_collected = "evidence_collected"
event_type_name AuditEventType.participants_bound = "participants_bound"
event_type_name AuditEventType.reason_asserted = "reason_asserted"
event_type_name AuditEventType.human_approval_recorded = "human_approval_recorded"
event_type_name AuditEventType.human_deferral_recorded = "human_deferral_recorded"
event_type_name AuditEventType.ceremony_completed = "ceremony_completed"
event_type_name AuditEventType.ceremony_failed = "ceremony_failed"

abbrev pub actor_kind_name : AuditActorKind → String
actor_kind_name AuditActorKind.human = "human"
actor_kind_name AuditActorKind.agent = "agent"
actor_kind_name AuditActorKind.service = "service"
actor_kind_name AuditActorKind.engine = "engine"

pub record AuditActor : Type 0 where
  pub actor_id : String
  pub kind : AuditActorKind
  pub role_id : Option String

pub record AuditRecord : Type 0 where
  pub event_id : String
  pub event_type : AuditEventType
  pub schema_version : ℕ
  pub ceremony_id : String
  pub definition_name : String
  pub definition_version : String
  pub sequence : ℕ
  pub occurred_at : Time
  pub actor : AuditActor
  pub correlation_id : Option String
  pub causation_id : Option String
  pub trace_id : Option String
  pub previous_record_hash : Option Bytes
  pub record_hash : Bytes

pub record AuditFact : Type 0 where
  pub event_id : String
  pub event_type : AuditEventType
  pub ceremony_id : String
  pub definition_name : String
  pub definition_version : String
  pub occurred_at : Time
  pub actor : AuditActor
  pub correlation_id : Option String
  pub causation_id : Option String
  pub trace_id : Option String

-- What the record takes from outside: the bytes of a text (`str::as_bytes`, UTF-8, which tells
-- texts apart), a moment in RFC 3339 (`OffsetDateTime::format`, which fails out of range and tells
-- moments apart) and SHA-256, of which nothing is assumed.
pub record Platform : Type 0 where
  pub as_bytes : String → Bytes
  pub format : Time → Option Bytes
  pub sha256 : Bytes → Bytes
  pub as_bytes-injective : (s t : String) → as_bytes s ≡ as_bytes t → s ≡ t
  pub format-injective : (s t : Time) (b : Bytes) → format s ≡ some b → format t ≡ some b → s ≡ t

abbrev pub schema_version : ℕ
schema_version = 1

-- `AuditRecordHash::from_bytes([0; 32])`
abbrev pub zero_hash : Bytes
zero_hash = be_bytes 32 0

module _ ⦃p : Platform⦄ where
  abbrev pub optional_bytes : Option String → Option Bytes
  optional_bytes none = none
  optional_bytes (some s) = some (p.as_bytes s)

  -- The canonical bytes of `compute_hash`, given the scheme's bytes and the formatted moment.
  unfoldable pub canonical : AuditRecord → Bytes → Bytes
  canonical r moment =
      p.as_bytes "underpass.choreo.audit-record.v1"
      ++ (be_bytes 4 r.schema_version
          ++ (write_field (p.as_bytes r.event_id)
              ++ (write_field (p.as_bytes (event_type_name r.event_type))
                  ++ (write_field (p.as_bytes r.ceremony_id)
                      ++ (write_field (p.as_bytes r.definition_name)
                          ++ (write_field (p.as_bytes r.definition_version)
                              ++ (be_bytes 8 r.sequence
                                  ++ (write_field moment
                                      ++ (write_field (p.as_bytes r.actor.actor_id)
                                          ++ (write_field
                                                (p.as_bytes (actor_kind_name r.actor.kind))
                                              ++ (write_optional (optional_bytes r.actor.role_id)
                                                  ++ (write_optional
                                                        (optional_bytes r.correlation_id)
                                                      ++ (write_optional
                                                            (optional_bytes r.causation_id)
                                                          ++ (write_optional
                                                            (optional_bytes r.trace_id)
                                                            ++ (write_optional
                                                            r.previous_record_hash
                                                            ++ [])))))))))))))))

  unfoldable pub compute_hash : AuditRecord → Result Bytes
  compute_hash r = do
    moment ←
        ok_or (p.format r.occurred_at)
          (invariant_violated "audit record timestamp cannot be rendered canonically")
    ok (p.sha256 (canonical r moment))

  unfoldable pub digest_is_intact : AuditRecord → Result Bool
  digest_is_intact r = do hash ← compute_hash r; ok (bytes_eq hash r.record_hash)

  unfoldable pub seal : AuditFact → ℕ → Option Bytes → Result AuditRecord
  seal fact sequence previous = do
    let r : AuditRecord = record {
      event_id = fact.event_id;
      event_type = fact.event_type;
      schema_version = schema_version;
      ceremony_id = fact.ceremony_id;
      definition_name = fact.definition_name;
      definition_version = fact.definition_version;
      sequence = sequence;
      occurred_at = fact.occurred_at;
      actor = fact.actor;
      correlation_id = fact.correlation_id;
      causation_id = fact.causation_id;
      trace_id = fact.trace_id;
      previous_record_hash = previous;
      record_hash = zero_hash;
    }
    hash ← compute_hash r
    ok (record r { record_hash = hash })

  -- `AuditRecord::first`
  unfoldable pub first_record : AuditFact → Result AuditRecord
  first_record fact = seal fact first_sequence none

  unfoldable pub following : AuditFact → AuditRecord → Result AuditRecord
  following fact previous = do
    ensure (fact.ceremony_id == previous.ceremony_id)
        (invariant_violated "an audit record must belong to the same ceremony as its predecessor")
    seal fact (sequence_next previous.sequence) (some previous.record_hash)

unfoldable pub continues : AuditRecord → AuditRecord → Bool
continues r previous =
    (r.ceremony_id == previous.ceremony_id)
    && follows r.sequence previous.sequence
    && elim r.previous_record_hash [ none ↦ false | some hash ↦ bytes_eq hash previous.record_hash ]
