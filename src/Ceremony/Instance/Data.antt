-- ===== src/Ceremony/Instance/Data.antt =====
-- entities/ceremony_instance.rs: the aggregate, how it starts, and the checks that its commands
-- share; with the records that it keeps.
use underpass_choreographer.Shared.{
  Bool, ◌&&◌, not, String, Option, none, some, List, [], ◌∷◌, is_some, find, ◌==◌, ⊤,
}
use underpass_choreographer.Shared.Map.{Map, lookup}
use underpass_choreographer.Shared.Result.{Result, invariant_violated, not_found, ensure, ◌>>◌}
use underpass_choreographer.Ceremony.Step.Lease.{Time}
use underpass_choreographer.Ceremony.Step.Record.{StepExecutionRecord, record_pending}
use underpass_choreographer.Ceremony.Guard.{CeremonyContext, RoleAction}
use underpass_choreographer.Ceremony.Content.{CeremonyGuardDeferralContent}
use underpass_choreographer.Ceremony.Definition.Data.{
  CeremonyDefinition, CeremonyStep, initial_state_id, is_terminal_state, role_allows,
}
use underpass_choreographer.Ceremony.Intervention.Data.{CeremonyIntervention}
use underpass_choreographer.Ceremony.Reason.{CeremonyReason}

-- value_objects/audit/audit_actor_kind.rs
pub data AuditActorKind : Type 0 where
  human agent service engine : AuditActorKind

pub record CeremonyGuardApproval : Type 0 where
  pub guard_name : String
  pub approved_by : String
  pub approved_by_kind : AuditActorKind
  pub approved_at : Time

pub record CeremonyGuardDeferral : Type 0 where
  pub guard_name : String
  pub deferred_by : String
  pub deferred_by_kind : AuditActorKind
  pub content : CeremonyGuardDeferralContent
  pub deferred_at : Time

pub record CeremonyTransitionRecord : Type 0 where
  pub trigger : String
  pub from_state : String
  pub to_state : String
  pub applied_by : Option String
  pub applied_at : Time

pub record CeremonyParticipantBinding : Type 0 where
  pub role_id : String
  pub specialty : String
  pub bound_at : Time

-- `bound_definition` is the digest of the published definition.
pub record CeremonyInstance (V : Type 0) : Type 0 where
  pub id : String
  pub definition_name : String
  pub definition_version : String
  pub current_state : String
  pub step_records : Map (StepExecutionRecord V)
  pub interventions : List (CeremonyIntervention V)
  pub guard_deferrals : List CeremonyGuardDeferral
  pub guard_approvals : List CeremonyGuardApproval
  pub transitions : List CeremonyTransitionRecord
  pub reasons : List CeremonyReason
  pub participant_bindings : Map CeremonyParticipantBinding
  pub context : CeremonyContext V
  pub idempotency_keys : List String
  pub created_at : Time
  pub updated_at : Time
  pub completed_at : Option Time
  pub bound_definition : Option String

module _ {V : Type 0} where
  -- A pending record for each step of the definition.
  abbrev pub pending_records : Map (CeremonyStep V) → Map (StepExecutionRecord V)
  pending_records [] = []
  pending_records ((k, _) ∷ steps) = (k, record_pending) ∷ pending_records steps

  abbrev pub open_at :
      String
      → CeremonyDefinition V
      → CeremonyContext V
      → Time
      → Option String
      → String
      → CeremonyInstance V
  open_at id d context now bound_definition state = record {
    id = id;
    definition_name = d.name;
    definition_version = d.version;
    current_state = state;
    step_records = pending_records d.steps;
    interventions = [];
    guard_deferrals = [];
    guard_approvals = [];
    transitions = [];
    reasons = [];
    participant_bindings = [];
    context = context;
    idempotency_keys = [];
    created_at = now;
    updated_at = now;
    completed_at = none;
    bound_definition = bound_definition;
  }

  -- `open`, `start` and `start_bound`; `none` is the `expect` of `initial_state_id`.
  unfoldable pub start :
      String
      → CeremonyDefinition V
      → CeremonyContext V
      → Time
      → Option String
      → Option (CeremonyInstance V)
  start id d context now bound_definition = elim (initial_state_id d) [
    | none ↦ none
    | some state ↦ some (open_at id d context now bound_definition state)
  ]

  abbrev pub intervention : String → CeremonyInstance V → Option (CeremonyIntervention V)
  intervention intervention_id s = find (λ i. i.id == intervention_id) s.interventions

  unfoldable pub matches_definition : CeremonyDefinition V → CeremonyInstance V → Bool
  matches_definition d s = (s.definition_name == d.name) && (s.definition_version == d.version)

  unfoldable pub is_terminal : CeremonyDefinition V → CeremonyInstance V → Bool
  is_terminal d s = matches_definition d s && is_terminal_state d s.current_state

  unfoldable pub is_completed : CeremonyDefinition V → CeremonyInstance V → Bool
  is_completed d s = is_terminal d s && is_some s.completed_at

  unfoldable pub require_definition : CeremonyDefinition V → CeremonyInstance V → Result ⊤
  require_definition d s =
      ensure (matches_definition d s) (invariant_violated "ceremony instance definition mismatch")

  unfoldable pub require_active : CeremonyDefinition V → String → CeremonyInstance V → Result ⊤
  unfolding require_definition
  require_active d terminal_reason s = do
    require_definition d s
    ensure (not (is_terminal d s)) (invariant_violated terminal_reason)

  unfoldable pub require_declared_role :
      CeremonyDefinition V → String → CeremonyInstance V → Result ⊤
  unfolding require_definition
  require_declared_role d role_id s = do
    require_definition d s
    ensure (is_some (lookup role_id d.roles)) (not_found "ceremony_role")

  unfoldable pub require_role :
      CeremonyDefinition V → String → RoleAction → CeremonyInstance V → Result ⊤
  unfolding require_definition
  require_role d role_id action s = do
    require_definition d s
    ensure (role_allows d role_id action)
        (invariant_violated "ceremony role is not allowed to perform action")
