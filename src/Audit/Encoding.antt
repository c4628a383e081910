-- ===== src/Audit/Encoding.antt =====
-- The canonical bytes of a record determine it: entities/audit_record.rs, `compute_hash`.
use underpass_choreographer.Shared.{
  ◌<◌, ◌^◌, ◌≡◌, refl, sym, ap, ◌∙◌, String, Option, none, some, List, [], ◌∷◌, ◌++◌, arith, length,
  find, ◌==◌,
}
use underpass_choreographer.Ceremony.Step.Lease.{Time}
use underpass_choreographer.Ceremony.Instance.Data.{AuditActorKind}
use underpass_choreographer.Audit.Bytes.{
  Bytes, write_field, write_optional, append_cancel, be_bytes_cancel, write_field_cancel,
  write_optional_cancel, OptionFits,
}
use underpass_choreographer.Audit.Record.{
  AuditRecord, AuditEventType, event_type_name, actor_kind_name, Platform, canonical,
  optional_bytes,
}

event_types : List AuditEventType
event_types =
    AuditEventType.ceremony_definition_validated ∷ AuditEventType.ceremony_definition_published
    ∷ AuditEventType.ceremony_instance_started ∷ AuditEventType.step_started
    ∷ AuditEventType.step_completed ∷ AuditEventType.step_failed ∷ AuditEventType.transition_applied
    ∷ AuditEventType.intervention_requested ∷ AuditEventType.intervention_responded
    ∷ AuditEventType.intervention_closed ∷ AuditEventType.evidence_collected
    ∷ AuditEventType.participants_bound ∷ AuditEventType.reason_asserted
    ∷ AuditEventType.human_approval_recorded ∷ AuditEventType.human_deferral_recorded
    ∷ AuditEventType.ceremony_completed ∷ AuditEventType.ceremony_failed ∷ []

event_type_named : String → Option AuditEventType
event_type_named s = find (λ e. event_type_name e == s) event_types

named-event_type_name : (e : AuditEventType) → event_type_named (event_type_name e) ≡ some e
unfolding event_type_named event_types
named-event_type_name AuditEventType.ceremony_definition_validated = refl
named-event_type_name AuditEventType.ceremony_definition_published = refl
named-event_type_name AuditEventType.ceremony_instance_started = refl
named-event_type_name AuditEventType.step_started = refl
named-event_type_name AuditEventType.step_completed = refl
named-event_type_name AuditEventType.step_failed = refl
named-event_type_name AuditEventType.transition_applied = refl
named-event_type_name AuditEventType.intervention_requested = refl
named-event_type_name AuditEventType.intervention_responded = refl
named-event_type_name AuditEventType.intervention_closed = refl
named-event_type_name AuditEventType.evidence_collected = refl
named-event_type_name AuditEventType.participants_bound = refl
named-event_type_name AuditEventType.reason_asserted = refl
named-event_type_name AuditEventType.human_approval_recorded = refl
named-event_type_name AuditEventType.human_deferral_recorded = refl
named-event_type_name AuditEventType.ceremony_completed = refl
named-event_type_name AuditEventType.ceremony_failed = refl

event_type_name_inj : (e f : AuditEventType) → event_type_name e ≡ event_type_name f → e ≡ f
event_type_name_inj e f h =
    ground (arith, named-event_type_name e, named-event_type_name f, ap event_type_named h)

actor_kinds : List AuditActorKind
actor_kinds =
    AuditActorKind.human ∷ AuditActorKind.agent ∷ AuditActorKind.service ∷ AuditActorKind.engine
    ∷ []

actor_kind_named : String → Option AuditActorKind
actor_kind_named s = find (λ e. actor_kind_name e == s) actor_kinds

named-actor_kind_name : (e : AuditActorKind) → actor_kind_named (actor_kind_name e) ≡ some e
unfolding actor_kind_named actor_kinds
named-actor_kind_name AuditActorKind.human = refl
named-actor_kind_name AuditActorKind.agent = refl
named-actor_kind_name AuditActorKind.service = refl
named-actor_kind_name AuditActorKind.engine = refl

actor_kind_name_inj : (e f : AuditActorKind) → actor_kind_name e ≡ actor_kind_name f → e ≡ f
actor_kind_name_inj e f h =
    ground (arith, named-actor_kind_name e, named-actor_kind_name f, ap actor_kind_named h)

abbrev scheme : String
scheme = "underpass.choreo.audit-record.v1"

same_record :
    (q r : AuditRecord)
    → r.schema_version ≡ q.schema_version
    → r.event_id ≡ q.event_id
    → r.event_type ≡ q.event_type
    → r.ceremony_id ≡ q.ceremony_id
    → r.definition_name ≡ q.definition_name
    → r.definition_version ≡ q.definition_version
    → r.sequence ≡ q.sequence
    → r.occurred_at ≡ q.occurred_at
    → r.actor.actor_id ≡ q.actor.actor_id
    → r.actor.kind ≡ q.actor.kind
    → r.actor.role_id ≡ q.actor.role_id
    → r.correlation_id ≡ q.correlation_id
    → r.causation_id ≡ q.causation_id
    → r.trace_id ≡ q.trace_id
    → r.previous_record_hash ≡ q.previous_record_hash
    → r ≡ record q { record_hash = r.record_hash }
same_record q r a b c d e f g h i j k l m n o = cc

abbrev TextFits : ⦃p : Platform⦄ → String → Type 0
TextFits ⦃p⦄ s = length (p.as_bytes s) < 256 ^ 8

-- Every field is shorter than 2^64 bytes, and the numbers fit their widths: what Rust's types give.
pub record Fits ⦃p : Platform⦄ (r : AuditRecord) : Type 0 where
  pub schema_version : r.schema_version < 256 ^ 4
  pub sequence : r.sequence < 256 ^ 8
  pub event_id : TextFits r.event_id
  pub event_type : TextFits (event_type_name r.event_type)
  pub ceremony_id : TextFits r.ceremony_id
  pub definition_name : TextFits r.definition_name
  pub definition_version : TextFits r.definition_version
  pub actor_id : TextFits r.actor.actor_id
  pub actor_kind : TextFits (actor_kind_name r.actor.kind)
  pub role_id : OptionFits (optional_bytes r.actor.role_id)
  pub correlation_id : OptionFits (optional_bytes r.correlation_id)
  pub causation_id : OptionFits (optional_bytes r.causation_id)
  pub trace_id : OptionFits (optional_bytes r.trace_id)
  pub previous : OptionFits r.previous_record_hash
  pub moment : OptionFits (p.format r.occurred_at)

module _ ⦃p : Platform⦄ where
  optional_bytes_inj : (s t : Option String) → optional_bytes s ≡ optional_bytes t → s ≡ t
  optional_bytes_inj none none h = refl
  optional_bytes_inj none (some t) h = ground arith
  optional_bytes_inj (some s) none h = ground arith
  optional_bytes_inj (some s) (some t) h = ap some (p.as_bytes-injective s t (some_inj h))
    where
      some_inj : {a b : Bytes} → some a ≡ some b → a ≡ b
      some_inj h = ground arith

  text_cancel :
      (s t : String) (xs ys : Bytes)
      → TextFits s
      → TextFits t
      → (write_field (p.as_bytes s) ++ xs) ≡ (write_field (p.as_bytes t) ++ ys)
      → (s ≡ t) × (xs ≡ ys)
  text_cancel s t xs ys fs ft h =
      let (e, rest) = write_field_cancel (p.as_bytes s) (p.as_bytes t) xs ys fs ft h in
      (p.as_bytes-injective s t e, rest)

  optional_text_cancel :
      (s t : Option String) (xs ys : Bytes)
      → OptionFits (optional_bytes s)
      → OptionFits (optional_bytes t)
      → (write_optional (optional_bytes s) ++ xs) ≡ (write_optional (optional_bytes t) ++ ys)
      → (s ≡ t) × (xs ≡ ys)
  optional_text_cancel s t xs ys fs ft h =
      let (e, rest) = write_optional_cancel (optional_bytes s) (optional_bytes t) xs ys fs ft h in
      (optional_bytes_inj s t e, rest)

  moment_inj :
      (s t : Time) (m n : Bytes) → p.format s ≡ some m → p.format t ≡ some n → m ≡ n → s ≡ t
  moment_inj s t m n es et e = p.format-injective s t n (es ∙ ap some e) et

  moment_fits : (o : Option Bytes) (m : Bytes) → o ≡ some m → OptionFits o → length m < 256 ^ 8
  moment_fits o m e f = ground (arith, e, f)

  -- Two records whose fields fit their widths and that have the same canonical bytes differ at most
  -- in their own digest.
  pub canonical_injective :
      (q r : AuditRecord) (m n : Bytes)
      → Fits q
      → Fits r
      → p.format q.occurred_at ≡ some m
      → p.format r.occurred_at ≡ some n
      → canonical q m ≡ canonical r n
      → r ≡ record q { record_hash = r.record_hash }
  unfolding canonical
  canonical_injective q r m n fq fr eq er h =
      let (_, h0) = append_cancel (p.as_bytes scheme) (p.as_bytes scheme) _ _ refl h in
      let (e1, h1) =
        be_bytes_cancel 4 q.schema_version r.schema_version _ _ fq.schema_version fr.schema_version
          h0 in
      let (e2, h2) = text_cancel q.event_id r.event_id _ _ fq.event_id fr.event_id h1 in
      let (e3, h3) = text_cancel _ _ _ _ fq.event_type fr.event_type h2 in
      let (e4, h4) = text_cancel q.ceremony_id r.ceremony_id _ _ fq.ceremony_id fr.ceremony_id h3 in
      let (e5, h5) = text_cancel _ _ _ _ fq.definition_name fr.definition_name h4 in
      let (e6, h6) = text_cancel _ _ _ _ fq.definition_version fr.definition_version h5 in
      let (e7, h7) = be_bytes_cancel 8 q.sequence r.sequence _ _ fq.sequence fr.sequence h6 in
      let (e8, h8) =
        write_field_cancel m n _ _ (moment_fits _ m eq fq.moment) (moment_fits _ n er fr.moment)
          h7 in
      let (e9, h9) = text_cancel _ _ _ _ fq.actor_id fr.actor_id h8 in
      let (e10, h10) = text_cancel _ _ _ _ fq.actor_kind fr.actor_kind h9 in
      let (e11, h11) = optional_text_cancel _ _ _ _ fq.role_id fr.role_id h10 in
      let (e12, h12) = optional_text_cancel _ _ _ _ fq.correlation_id fr.correlation_id h11 in
      let (e13, h13) = optional_text_cancel _ _ _ _ fq.causation_id fr.causation_id h12 in
      let (e14, h14) = optional_text_cancel _ _ _ _ fq.trace_id fr.trace_id h13 in
      let (e15, h15) = write_optional_cancel _ _ _ _ fq.previous fr.previous h14 in
      same_record q r (sym e1) (sym e2) (sym (event_type_name_inj _ _ e3)) (sym e4) (sym e5)
        (sym e6) (sym e7) (sym (moment_inj _ _ m n eq er e8)) (sym e9)
        (sym (actor_kind_name_inj _ _ e10)) (sym e11) (sym e12) (sym e13) (sym e14) (sym e15)
