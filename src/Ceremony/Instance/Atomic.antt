-- ===== src/Ceremony/Instance/Atomic.antt =====
-- A command that is refused leaves the session as it was.
use underpass_choreographer.Shared.{◌≡◌, refl, String, Option, List, [], ◌∷◌, arith, ⊤}
use underpass_choreographer.Shared.Result.{Result, ok, err}
use underpass_choreographer.Shared.Action.{Action}
use underpass_choreographer.Ceremony.Attributes.{Json}
use underpass_choreographer.Ceremony.Step.Lease.{Time}
use underpass_choreographer.Ceremony.Content.{CeremonyInterventionContent}
use underpass_choreographer.Ceremony.Evidence.{CeremonyEvidencePack}
use underpass_choreographer.Ceremony.Definition.Data.{CeremonyDefinition}
use underpass_choreographer.Ceremony.Intervention.Data.{
  CeremonyIntervention, respond, respond_with_evidence, close,
}
use underpass_choreographer.Ceremony.Instance.Data.{CeremonyInstance}
use underpass_choreographer.Ceremony.Instance.Steps.{start_step, start_step_as, apply_step_result}
use underpass_choreographer.Ceremony.Instance.Guards.{approve_guard, defer_guard, bind_participant}
use underpass_choreographer.Ceremony.Instance.Agenda.{
  amend, on_intervention, request_intervention_with_provenance_as, respond_to_intervention_as,
  respond_to_intervention_with_evidence_as, close_intervention_as,
}
use underpass_choreographer.Ceremony.Instance.Reasons.{assert_reason_as}
use underpass_choreographer.Ceremony.Instance.Moves.{apply_transition, apply_transition_as}
use underpass_choreographer.Ceremony.Instance.Commands.{Command, execute}

-- What an action does when it is refused: nothing.
abbrev pub Keeps : {S A : Type 0} → S → S × Result A → Type 0
Keeps s (s', ok _) = Unit
Keeps s (s', err e) = s' ≡ s

module _ {V : Type 0} where
  respond-Keeps :
      (role : String) (c : CeremonyInterventionContent V) (now : Time) (i : CeremonyIntervention V)
      → Keeps i (respond role c now i)
  unfolding respond
  respond-Keeps role c now i = ground arith

  respond_with_evidence-Keeps :
      (f : CeremonyEvidencePack V → Option V) (role : String) (p : CeremonyEvidencePack V)
      (now : Time) (i : CeremonyIntervention V)
      → Keeps i (respond_with_evidence f role p now i)
  unfolding respond_with_evidence
  respond_with_evidence-Keeps f role p now i = ground arith

  close-Keeps :
      (role : String) (now : Time) (i : CeremonyIntervention V) → Keeps i (close role now i)
  unfolding close
  close-Keeps role now i = ground arith

  amend-Keeps :
      (id : String) (m : Action (CeremonyIntervention V) ⊤)
      → ((i : CeremonyIntervention V) → Keeps i (m i))
      → (is : List (CeremonyIntervention V)) → Keeps is (amend id m is)
  unfolding amend
  amend-Keeps id m h [] = refl
  amend-Keeps id m h (i ∷ is) = ground (arith, h i, amend-Keeps id m h is)

  on_intervention-Keeps :
      (id : String) (m : Action (CeremonyIntervention V) ⊤)
      → ((i : CeremonyIntervention V) → Keeps i (m i))
      → (s : CeremonyInstance V) → Keeps s (on_intervention id m s)
  unfolding on_intervention
  on_intervention-Keeps id m h s = ground (arith, amend-Keeps id m h s.interventions)

module _ {V : Type 0} ⦃j : Json V⦄ (to_value : CeremonyEvidencePack V → Option V) where
  -- Whatever the command, a refusal leaves every field of the session as it was.
  pub execute-Keeps :
      (d : CeremonyDefinition V) (now : Time) (c : Command V) (s : CeremonyInstance V)
      → Keeps s (execute to_value d now c s)
  unfolding execute start_step start_step_as apply_step_result approve_guard defer_guard
      bind_participant request_intervention_with_provenance_as respond_to_intervention_as
      respond_to_intervention_with_evidence_as close_intervention_as assert_reason_as
      apply_transition apply_transition_as
  execute-Keeps d now (Command.start_step k l) s = ground arith
  execute-Keeps d now (Command.start_step_as role k l) s = ground arith
  execute-Keeps d now (Command.apply_step_result k r) s = ground arith
  execute-Keeps d now (Command.approve_guard g role kind) s = ground arith
  execute-Keeps d now (Command.defer_guard g content role kind) s = ground arith
  execute-Keeps d now (Command.bind_participant role specialty) s = ground arith
  execute-Keeps d now (Command.request_intervention id role kind target content p) s = ground arith
  execute-Keeps d now (Command.respond_to_intervention id role content) s = ground (
    arith,
    on_intervention-Keeps id (respond role content now) (respond-Keeps role content now) s,
  )
  execute-Keeps d now (Command.respond_with_evidence id role pack) s = ground (
    arith,
    on_intervention-Keeps id (respond_with_evidence to_value role pack now)
        (respond_with_evidence-Keeps to_value role pack now) s,
  )
  execute-Keeps d now (Command.close_intervention id role) s =
      ground (arith, on_intervention-Keeps id (close role now) (close-Keeps role now) s)
  execute-Keeps d now (Command.assert_reason role from to kind why confidence) s = ground arith
  execute-Keeps d now (Command.apply_transition trigger) s = ground arith
  execute-Keeps d now (Command.apply_transition_as role trigger) s = ground arith
