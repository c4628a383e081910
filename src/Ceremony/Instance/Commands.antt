-- ===== src/Ceremony/Instance/Commands.antt =====
-- entities/ceremony_instance.rs: every method that takes `&mut self`, as data, so that a session is
-- a list of commands. What a method returns beside an error is left out.
use underpass_choreographer.Shared.{String, Option, List, [], ◌∷◌, ⊤}
use underpass_choreographer.Shared.Result.{Result, ok, err}
use underpass_choreographer.Shared.Action.{Action}
use underpass_choreographer.Ceremony.Attributes.{Json}
use underpass_choreographer.Ceremony.Step.Lease.{StepLease, Time}
use underpass_choreographer.Ceremony.Step.Record.{StepResult}
use underpass_choreographer.Ceremony.Content.{
  CeremonyGuardDeferralContent, CeremonyInterventionContent,
}
use underpass_choreographer.Ceremony.Evidence.{CeremonyEvidencePack}
use underpass_choreographer.Ceremony.Definition.Data.{CeremonyDefinition}
use underpass_choreographer.Ceremony.Intervention.Data.{
  CeremonyInterventionKind, CeremonyInterventionTarget, CeremonyInterventionProvenance,
}
use underpass_choreographer.Ceremony.Reason.{
  CeremonyRecordRef, CeremonyReasonKind, MemoryConfidence,
}
use underpass_choreographer.Ceremony.Instance.Data.{CeremonyInstance, AuditActorKind}
use underpass_choreographer.Ceremony.Instance.Steps
use underpass_choreographer.Ceremony.Instance.Guards
use underpass_choreographer.Ceremony.Instance.Agenda
use underpass_choreographer.Ceremony.Instance.Reasons
use underpass_choreographer.Ceremony.Instance.Moves

pub data Command (V : Type 0) : Type 0 where
  start_step : String → StepLease → Command V
  start_step_as : String → String → StepLease → Command V
  apply_step_result : String → StepResult V → Command V
  approve_guard : String → String → AuditActorKind → Command V
  defer_guard : String → CeremonyGuardDeferralContent → String → AuditActorKind → Command V
  bind_participant : String → String → Command V
  request_intervention :
      String
      → String
      → CeremonyInterventionKind
      → CeremonyInterventionTarget
      → CeremonyInterventionContent V
      → Option CeremonyInterventionProvenance
      → Command V
  respond_to_intervention : String → String → CeremonyInterventionContent V → Command V
  respond_with_evidence : String → String → CeremonyEvidencePack V → Command V
  close_intervention : String → String → Command V
  assert_reason :
      String
      → CeremonyRecordRef
      → CeremonyRecordRef
      → CeremonyReasonKind
      → String
      → MemoryConfidence
      → Command V
  apply_transition : String → Command V
  apply_transition_as : String → String → Command V

abbrev forget : {S A : Type 0} → S × Result A → S × Result ⊤
forget (s, ok _) = (s, ok tt)
forget (s, err e) = (s, err e)

module _ {V : Type 0} ⦃j : Json V⦄ (to_value : CeremonyEvidencePack V → Option V) where
  unfoldable pub execute : CeremonyDefinition V → Time → Command V → Action (CeremonyInstance V) ⊤
  execute d now (start_step step_id lease) s = forget (Steps.start_step d step_id lease now s)
  execute d now (start_step_as role_id step_id lease) s =
      forget (Steps.start_step_as d role_id step_id lease now s)
  execute d now (apply_step_result step_id result) s =
      Steps.apply_step_result d step_id result now s
  execute d now (approve_guard guard_name role_id kind) s =
      Guards.approve_guard d guard_name role_id kind now s
  execute d now (defer_guard guard_name content role_id kind) s =
      Guards.defer_guard d guard_name content role_id kind now s
  execute d now (bind_participant role_id specialty) s =
      Guards.bind_participant d role_id specialty now s
  execute d now (request_intervention id role_id kind target content provenance) s =
      Agenda.request_intervention_with_provenance_as d id role_id kind target content provenance now
        s
  execute d now (respond_to_intervention id role_id content) s =
      Agenda.respond_to_intervention_as d id role_id content now s
  execute d now (respond_with_evidence id role_id pack) s =
      Agenda.respond_to_intervention_with_evidence_as to_value d id role_id pack now s
  execute d now (close_intervention id role_id) s = Agenda.close_intervention_as d id role_id now s
  execute d now (assert_reason role_id from to kind why confidence) s =
      Reasons.assert_reason_as d role_id from to kind why confidence now s
  execute d now (apply_transition trigger) s = forget (Moves.apply_transition d trigger now s)
  execute d now (apply_transition_as role_id trigger) s =
      forget (Moves.apply_transition_as d role_id trigger now s)

  -- A session: commands at their times, each tried on the state that the last one left.
  unfoldable pub run :
      CeremonyDefinition V → List (Time × Command V) → CeremonyInstance V → CeremonyInstance V
  run d [] s = s
  run d ((now, c) ∷ cs) s = run d cs (execute d now c s).0
