-- ===== src/Tests/Sample.antt =====
-- A small ceremony: two steps, one of which a human approves, and the commands of a session on it.
-- Its JSON values are Booleans.
use underpass_choreographer.Shared.{refl, Bool, String, Option, none, some, List, [], ◌∷◌}
use underpass_choreographer.Shared.Map.{Map}
use underpass_choreographer.Ceremony.Attributes.{Json}
use underpass_choreographer.Ceremony.Step.Lease.{Time, StepLease}
use underpass_choreographer.Ceremony.Step.Record.{StepResult, StepStatus}
use underpass_choreographer.Ceremony.Evidence.{CeremonyEvidencePack}
use underpass_choreographer.Ceremony.Guard.{CeremonyGuard, GuardCondition, RoleAction, CeremonyRole}
use underpass_choreographer.Ceremony.Definition.Data.{
  CeremonyDefinition, CeremonyState, CeremonyStateKind, CeremonyTransition, CeremonyStep,
}
use underpass_choreographer.Ceremony.Instance.Data.{CeremonyInstance, AuditActorKind, open_at}
use underpass_choreographer.Ceremony.Instance.Commands.{Command}

instance abbrev pub flag_json : Json Bool
flag_json = record { of_bool = λ b. b; as_bool = λ b. some b; as_bool-of_bool = λ b. refl }

abbrev pub no_value : CeremonyEvidencePack Bool → Option Bool
no_value p = none

abbrev pub states : List CeremonyState
states =
    record { id = "draft"; kind = CeremonyStateKind.initial }
    ∷ record { id = "review"; kind = CeremonyStateKind.intermediate }
    ∷ record { id = "sealed"; kind = CeremonyStateKind.terminal }
    ∷ []

abbrev pub transitions : List CeremonyTransition
transitions =
    record { from = "draft"; to = "review"; trigger = "submit"; required_guards = "written" ∷ [] }
    ∷ record {
      from = "review";
      to = "sealed";
      trigger = "accept";
      required_guards = "approved" ∷ [];
    }
    ∷ []

abbrev pub steps : List (CeremonyStep Bool)
steps =
    record {
      id = "write";
      state_id = "draft";
      handler_kind = "agent";
      handler_config = [];
      retry_policy = record { max_attempts = 2; backoff = 0 };
      timeout = none;
    }
    ∷ []

abbrev pub guards : List CeremonyGuard
guards =
    record { name = "approved"; condition = GuardCondition.human_approval }
    ∷ record { name = "written"; condition = GuardCondition.all_steps_completed }
    ∷ []

abbrev pub roles : List CeremonyRole
roles =
    record {
      id = "author";
      allowed_actions =
          RoleAction.step "write"
          ∷ RoleAction.transition "submit"
          ∷ RoleAction.request_intervention
          ∷ [];
    }
    ∷ record {
      id = "editor";
      allowed_actions = RoleAction.transition "accept" ∷ RoleAction.respond_to_intervention ∷ [];
    }
    ∷ []

abbrev pub keyed {ℓ} : {A : Type ℓ} → (A → String) → List A → Map A
keyed key [] = []
keyed key (x ∷ xs) = (key x, x) ∷ keyed key xs

abbrev pub essay : CeremonyDefinition Bool
essay = record {
  name = "essay";
  version = "1";
  description = none;
  inputs = [];
  outputs = [];
  states = keyed (λ s. s.id) states;
  transitions = transitions;
  steps = keyed (λ s. s.id) steps;
  step_order = "write" ∷ [];
  guards = keyed (λ g. g.name) guards;
  roles = keyed (λ r. r.id) roles;
}

abbrev pub session : CeremonyInstance Bool
session = open_at "c-1" essay [] 10 none "draft"

abbrev pub lease : StepLease
lease = record { owner_id = "w-1"; idempotency_key = "k-1"; acquired_at = 20; expires_at = 50 }

abbrev pub takeover : StepLease
takeover = record { owner_id = "w-2"; idempotency_key = "k-2"; acquired_at = 60; expires_at = 90 }

abbrev pub done : StepResult Bool
done = record { status = StepStatus.completed; output = []; error_message = none }

-- The whole life of a session, with commands among it that are refused.
abbrev pub life : List (Time × Command Bool)
life =
    (20, Command.start_step_as "author" "write" lease)
    ∷ (30, Command.start_step "write" takeover)
    ∷ (60, Command.start_step "write" takeover)
    ∷ (70, Command.apply_step_result "write" done)
    ∷ (71, Command.apply_transition_as "editor" "submit")
    ∷ (72, Command.apply_transition_as "author" "submit")
    ∷ (73, Command.apply_transition "accept")
    ∷ (74, Command.approve_guard "approved" "editor" AuditActorKind.human)
    ∷ (75, Command.apply_transition_as "editor" "accept")
    ∷ (76, Command.start_step "write" lease)
    ∷ []

-- The life up to the approval.
abbrev pub approved_life : List (Time × Command Bool)
approved_life =
    (20, Command.start_step_as "author" "write" lease)
    ∷ (60, Command.start_step "write" takeover)
    ∷ (70, Command.apply_step_result "write" done)
    ∷ (72, Command.apply_transition_as "author" "submit")
    ∷ (74, Command.approve_guard "approved" "editor" AuditActorKind.human)
    ∷ []
