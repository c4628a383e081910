-- ===== src/Running/Data.antt =====
-- What a run of a ceremony hands around: crates/choreo-app/src/usecases/ceremony_step_trace.rs, the
-- request for a step's handler and the transcript's contributions of crates/choreo-core, and the
-- declared order of a definition's steps.
use underpass_choreographer.Shared.{
  not, Option, none, some, String, List, [], ◌∷◌, any, trim, codes, is_empty_text,
}
use underpass_choreographer.Shared.Map.{Map, lookup}
use underpass_choreographer.Shared.Result.{
  DomainError, Result, ok, err, empty_field, invalid_characters, ensure, ◌>>=◌, ◌>>◌,
}
use underpass_choreographer.Ceremony.Attributes.{Attributes}
use underpass_choreographer.Ceremony.Content.{is_control, error_message_new}
use underpass_choreographer.Ceremony.Guard.{CeremonyContext}
use underpass_choreographer.Ceremony.Step.Lease.{DurationMs}
use underpass_choreographer.Ceremony.Step.Record.{StepAttempt, StepStatus, StepResult, result_new}
use underpass_choreographer.Ceremony.Definition.Data.{CeremonyDefinition, CeremonyStep}
use underpass_choreographer.Ceremony.Instance.Data.{CeremonyInstance, AuditActorKind}
use underpass_choreographer.Services.Journal.{LoadedSession}

-- `IdempotencyKey::new`
unfoldable pub idempotency_key_new : String → Result String
idempotency_key_new raw = do
  let trimmed = trim raw
  ensure (not (is_empty_text trimmed)) (empty_field "idempotency_key")
  ensure (not (any is_control (codes trimmed))) (invalid_characters "idempotency_key")
  ok trimmed

pub record CeremonyStepTrace (V : Type 0) : Type 0 where
  pub state_id : String
  pub step_id : String
  pub role_id : String
  pub attempt : StepAttempt
  pub status : StepStatus
  pub output : Attributes V

pub record CeremonyStepContribution (V : Type 0) : Type 0 where
  pub step_id : String
  pub role_id : String
  pub output : Attributes V

pub record CeremonyStepHandlerRequest (V : Type 0) : Type 0 where
  pub ceremony_id : String
  pub definition_name : String
  pub definition_version : String
  pub state_id : String
  pub step_id : String
  pub handler_kind : String
  pub handler_config : Attributes V
  pub context : CeremonyContext V
  pub attempt : StepAttempt
  pub transcript : List (CeremonyStepContribution V)
  pub role_id : Option String
  pub bound_specialty : Option String

-- `RunCeremonyInput`
pub record RunCeremonyInput (V : Type 0) : Type 0 where
  pub id : String
  pub definition : CeremonyDefinition V
  pub context : CeremonyContext V
  pub lease_owner_id : String
  pub lease_ttl : DurationMs
  pub actor_id : String
  pub actor_kind : AuditActorKind

-- The variables of the loop, with the transcript that the ceremony's transcript store holds.
pub record Progress (V : Type 0) : Type 0 where
  pub current : LoadedSession V
  pub traces : List (CeremonyStepTrace V)
  pub transcript : List (CeremonyStepContribution V)

module _ {V : Type 0} where
  abbrev pub bound_specialty : String → CeremonyInstance V → Option String
  bound_specialty role_id s = elim (lookup role_id s.participant_bindings) [
    | none ↦ none
    | some b ↦ some b.specialty
  ]

  -- The steps that an order names; `none` is the `expect` of `steps_in_declaration_order`.
  abbrev pub ordered_steps : Map (CeremonyStep V) → List String → Option (List (CeremonyStep V))
  ordered_steps steps [] = some []
  ordered_steps steps (k ∷ ks) =
      let rest = ordered_steps steps ks in
      elim (lookup k steps) [
        | none ↦ none
        | some s ↦ elim rest [ none ↦ none | some ss ↦ some (s ∷ ss) ]
      ]

  unfoldable pub steps_in_declaration_order : CeremonyDefinition V → Option (List (CeremonyStep V))
  steps_in_declaration_order d = ordered_steps d.steps d.step_order

  -- The result of `execute_handler`: an error of the handler is a failed step that names it;
  -- `describe` is the error's text.
  unfoldable pub handled : (DomainError → String) → Result (StepResult V) → Result (StepResult V)
  unfolding error_message_new result_new
  handled describe (ok result) = ok result
  handled describe (err e) = do
    message ← error_message_new (describe e)
    result_new StepStatus.failed [] (some message)
