-- ===== src/Services/Facts.antt =====
-- crates/choreo-app/src/services/session_facts.rs: what a session did, as facts for its journal;
-- with `EventId` of value_objects/ids.rs and `AuditActor` of value_objects/audit.
use underpass_choreographer.Shared.{
  ℕ, not, String, len, Option, none, some, List, [], ◌∷◌, length, leb, trim, is_empty_text,
  format_text, if◌then◌else◌,
}
use underpass_choreographer.Shared.Map.{Map}
use underpass_choreographer.Shared.Result.{
  Result, ok, empty_field, field_too_long, ensure, ◌>>=◌, ◌>>◌,
}
use underpass_choreographer.Ceremony.Content.{check_trimmed, is_control}
use underpass_choreographer.Ceremony.Step.Lease.{Time}
use underpass_choreographer.Ceremony.Step.Record.{StepAttempt, StepResult, is_success}
use underpass_choreographer.Ceremony.Definition.Data.{CeremonyDefinition}
use underpass_choreographer.Ceremony.Instance.Data.{CeremonyInstance, AuditActorKind, is_terminal}
use underpass_choreographer.Audit.Record.{AuditFact, AuditActor, AuditEventType, event_type_name}

-- `validate_id` and `EventId::new`.
unfoldable pub validate_id : String → String → Result String
validate_id field raw = check_trimmed is_control field 256 (trim raw)

unfoldable pub event_id_new : String → Result String
unfolding validate_id
event_id_new raw = validate_id "event_id" raw

-- `AuditActor::new`
unfoldable pub actor_new : String → AuditActorKind → Option String → Result AuditActor
actor_new actor_id kind role_id = do
  let trimmed = trim actor_id
  ensure (not (is_empty_text trimmed)) (empty_field "audit_actor.actor_id")
  ensure (leb (len trimmed) 256) (field_too_long "audit_actor.actor_id" (len trimmed) 256)
  ok (record { actor_id = trimmed; kind = kind; role_id = role_id })

abbrev role_actor : String → AuditActorKind → Result AuditActor
role_actor role_id kind = actor_new role_id kind (some role_id)

-- The seating, `role=specialty` in the order of the roles, joined by commas.
abbrev pub seating_text : Map String → List String
seating_text [] = []
seating_text ((role_id, specialty) ∷ []) = role_id ∷ "=" ∷ specialty ∷ []
seating_text ((role_id, specialty) ∷ seat ∷ seats) =
    role_id ∷ "=" ∷ specialty ∷ "," ∷ seating_text (seat ∷ seats)

module _ {V : Type 0} where
  unfoldable pub fact :
      CeremonyInstance V → AuditEventType → String → AuditActor → Time → Result AuditFact
  unfolding event_id_new
  fact i event_type about actor occurred_at = do
    id ← event_id_new (format_text (i.id ∷ ":" ∷ event_type_name event_type ∷ ":" ∷ about ∷ []))
    ok (record {
      event_id = id;
      event_type = event_type;
      ceremony_id = i.id;
      definition_name = i.definition_name;
      definition_version = i.definition_version;
      occurred_at = occurred_at;
      actor = actor;
      correlation_id = none;
      causation_id = none;
      trace_id = none;
    })

  -- The arguments of each: the session, what the fact is about, who acted, and when.
  unfoldable pub guard_approved :
      CeremonyInstance V → String → String → AuditActorKind → Time → Result AuditFact
  unfolding fact actor_new
  guard_approved i guard_name approved_by kind now = do
    a ← role_actor approved_by kind
    fact i AuditEventType.human_approval_recorded (format_text ("guard:" ∷ guard_name ∷ [])) a now

  unfoldable pub guard_deferred :
      CeremonyInstance V → String → String → AuditActorKind → Time → Result AuditFact
  unfolding fact actor_new
  guard_deferred i guard_name deferred_by kind now = do
    a ← role_actor deferred_by kind
    fact i AuditEventType.human_deferral_recorded (format_text ("guard:" ∷ guard_name ∷ [])) a now

  unfoldable pub intervention_requested :
      CeremonyInstance V → String → String → AuditActorKind → Time → Result AuditFact
  unfolding fact actor_new
  intervention_requested i intervention_id requested_by kind now = do
    a ← role_actor requested_by kind
    fact i AuditEventType.intervention_requested
        (format_text ("intervention:" ∷ intervention_id ∷ [])) a now

  unfoldable pub intervention_responded :
      CeremonyInstance V → String → String → AuditActorKind → Time → Result AuditFact
  unfolding fact actor_new
  intervention_responded i intervention_id responded_by kind now = do
    a ← role_actor responded_by kind
    fact i AuditEventType.intervention_responded
        (format_text ("intervention:" ∷ intervention_id ∷ ":" ∷ responded_by ∷ [])) a now

  unfoldable pub intervention_closed :
      CeremonyInstance V → String → String → AuditActorKind → Time → Result AuditFact
  unfolding fact actor_new
  intervention_closed i intervention_id closed_by kind now = do
    a ← role_actor closed_by kind
    fact i AuditEventType.intervention_closed (format_text ("intervention:" ∷ intervention_id ∷ []))
        a now

  unfoldable pub evidence_collected :
      CeremonyInstance V
      → String
      → String
      → String
      → AuditActorKind
      → Time
      → Result (List AuditFact)
  unfolding intervention_responded
  evidence_collected i intervention_id source_id collected_by kind now = do
    a ← role_actor collected_by kind
    collected ←
        fact i AuditEventType.evidence_collected
          (format_text ("intervention:" ∷ intervention_id ∷ ":source:" ∷ source_id ∷ [])) a now
    responded ← intervention_responded i intervention_id collected_by kind now
    ok (collected ∷ responded ∷ [])

  unfoldable pub ceremony_started :
      CeremonyInstance V → String → AuditActorKind → Time → Result AuditFact
  unfolding fact actor_new
  ceremony_started i started_by kind now = do
    a ← actor_new started_by kind none
    fact i AuditEventType.ceremony_instance_started "session" a now

  unfoldable pub participants_bound :
      CeremonyInstance V → Map String → String → AuditActorKind → Time → Result AuditFact
  unfolding fact actor_new
  participants_bound i seating seated_by kind now = do
    a ← actor_new seated_by kind none
    fact i AuditEventType.participants_bound (format_text ("seating:" ∷ seating_text seating)) a now

-- `decimal` renders a number for `format!`.
module _ {V : Type 0} (decimal : ℕ → String) where
  unfoldable pub transition_applied :
      CeremonyInstance V
      → CeremonyDefinition V
      → String
      → AuditActorKind
      → Time
      → Result (List AuditFact)
  unfolding fact
  transition_applied i d applied_by kind now = do
    a ← role_actor applied_by kind
    let about = format_text ("transition:" ∷ decimal (length i.transitions) ∷ [])
    moved ← fact i AuditEventType.transition_applied about a now
    completed ←
        if is_terminal d i
        then (fact i AuditEventType.ceremony_completed about a now >>= λ f. ok (f ∷ []))
        else ok []
    ok (moved ∷ completed)

  unfoldable pub reason_asserted :
      CeremonyInstance V → String → AuditActorKind → Time → Result AuditFact
  unfolding fact
  reason_asserted i asserted_by kind now = do
    a ← role_actor asserted_by kind
    fact i AuditEventType.reason_asserted
        (format_text ("reason:" ∷ decimal (length i.reasons) ∷ [])) a now

  unfoldable pub step_fact :
      CeremonyInstance V
      → AuditEventType
      → String
      → StepAttempt
      → String
      → AuditActorKind
      → Time
      → Result AuditFact
  unfolding fact
  step_fact i event_type step_id attempt actor_role kind now = do
    a ← role_actor actor_role kind
    fact i event_type (format_text ("step:" ∷ step_id ∷ ":attempt:" ∷ decimal attempt ∷ [])) a now

  unfoldable pub step_started :
      CeremonyInstance V → String → StepAttempt → String → AuditActorKind → Time → Result AuditFact
  unfolding step_fact
  step_started i step_id attempt started_by kind now =
      step_fact i AuditEventType.step_started step_id attempt started_by kind now

  unfoldable pub step_finished :
      CeremonyInstance V
      → String
      → StepAttempt
      → StepResult V
      → String
      → AuditActorKind
      → Time
      → Result AuditFact
  unfolding step_fact
  step_finished i step_id attempt result finished_by kind now =
      step_fact i
        (if is_success result.status
          then AuditEventType.step_completed
          else AuditEventType.step_failed)
        step_id attempt finished_by kind now
