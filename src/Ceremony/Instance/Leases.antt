-- ===== src/Ceremony/Instance/Leases.antt =====
-- The step records of a session over all its commands: entities/ceremony_instance.rs, `start_step`
-- and `apply_step_result`, with value_objects/ceremony/step_execution_record.rs.
use underpass_choreographer.Shared.{
  Bool-cases, ap, ◌∙◌, ◌≡◌, refl, sym, subst, inl, inr, Bool, true, false, String, Option, arith, ⊤,
}
use mathlib.Core.Path.{subst₂}
use underpass_choreographer.Shared.Result.{Result, is_ok}
use underpass_choreographer.Shared.Action.{Action}
use underpass_choreographer.Ceremony.Attributes.{Json}
use underpass_choreographer.Ceremony.Step.Lease.{Time, StepLease}
use underpass_choreographer.Ceremony.Step.Record.{StepResult}
use underpass_choreographer.Ceremony.Evidence.{CeremonyEvidencePack}
use underpass_choreographer.Ceremony.Definition.Data.{CeremonyDefinition}
use underpass_choreographer.Ceremony.Intervention.Data.{
  CeremonyIntervention, respond, respond_with_evidence, close,
}
use underpass_choreographer.Ceremony.Instance.Data.{CeremonyInstance}
use underpass_choreographer.Ceremony.Instance.Steps.{start_step, start_step_as, apply_step_result}
use underpass_choreographer.Ceremony.Instance.Guards.{approve_guard, defer_guard, bind_participant}
use underpass_choreographer.Ceremony.Instance.Agenda.{
  on_intervention, request_intervention_with_provenance_as, respond_to_intervention_as,
  respond_to_intervention_with_evidence_as, close_intervention_as,
}
use underpass_choreographer.Ceremony.Instance.Reasons.{assert_reason_as, record_that_it_answers}
use underpass_choreographer.Ceremony.Instance.Moves.{apply_transition, apply_transition_as}
use underpass_choreographer.Ceremony.Instance.Commands.{Command, execute}
use underpass_choreographer.Ceremony.Instance.Atomic.{Keeps, execute-Keeps}
use underpass_choreographer.Ceremony.Instance.Turns.{ledger, Turn, start_step-Turn, apply_Turn}

module _ {V : Type 0} where
  ledger-on_intervention :
      (id : String) (m : Action (CeremonyIntervention V) ⊤) (s : CeremonyInstance V)
      → ledger (on_intervention id m s).0 ≡ ledger s
  unfolding on_intervention
  ledger-on_intervention id m s = refl

  answers_ledger :
      (item : String) (now : Time) (s : CeremonyInstance V)
      → ledger (record_that_it_answers item now s) ≡ ledger s
  unfolding record_that_it_answers
  answers_ledger item now s = ground arith

abbrev is_step_command : {V : Type 0} → Command V → Bool
is_step_command (Command.start_step _ _) = true
is_step_command (Command.start_step_as _ _ _) = true
is_step_command (Command.apply_step_result _ _) = true
is_step_command _ = false

module _ {V : Type 0} ⦃j : Json V⦄ (to_value : CeremonyEvidencePack V → Option V)
    (d : CeremonyDefinition V) where
  keeps_ledger :
      (now : Time) (c : Command V) (s : CeremonyInstance V)
      → is_step_command c ≡ false
      → ledger (execute to_value d now c s).0 ≡ ledger s
  unfolding execute approve_guard defer_guard bind_participant
      request_intervention_with_provenance_as respond_to_intervention_as
      respond_to_intervention_with_evidence_as close_intervention_as assert_reason_as
      apply_transition apply_transition_as
  keeps_ledger now (Command.start_step k l) s h = cc
  keeps_ledger now (Command.start_step_as role k l) s h = cc
  keeps_ledger now (Command.apply_step_result k r) s h = cc
  keeps_ledger now (Command.respond_to_intervention id role content) s h = ground (
    arith,
    ledger-on_intervention id (respond role content now) s,
    answers_ledger id now (on_intervention id (respond role content now) s).0,
  )
  keeps_ledger now (Command.respond_with_evidence id role pack) s h = ground (
    arith,
    ledger-on_intervention id (respond_with_evidence to_value role pack now) s,
    answers_ledger id now (on_intervention id (respond_with_evidence to_value role pack now) s).0,
  )
  keeps_ledger now (Command.close_intervention id role) s h =
      ground (arith, ledger-on_intervention id (close role now) s)
  keeps_ledger now c s h = ground arith

  start_command :
      (now : Time) (k : String) (l : StepLease) (s : CeremonyInstance V)
      → ((execute to_value d now (Command.start_step k l) s).0 ≡ (start_step d k l now s).0)
        × (is_ok (execute to_value d now (Command.start_step k l) s).1
            ≡ is_ok (start_step d k l now s).1)
  unfolding execute
  start_command now k l s = ground arith

  start_as_command :
      (now : Time) (role k : String) (l : StepLease) (s : CeremonyInstance V)
      → is_ok (execute to_value d now (Command.start_step_as role k l) s).1 ≡ true
      → ((execute to_value d now (Command.start_step_as role k l) s).0 ≡ (start_step d k l now s).0)
        × (is_ok (start_step d k l now s).1 ≡ true)
  unfolding execute start_step_as
  start_as_command now role k l s h = ground (arith, h)

  apply_command :
      (now : Time) (k : String) (x : StepResult V) (s : CeremonyInstance V)
      → execute to_value d now (Command.apply_step_result k x) s ≡ apply_step_result d k x now s
  unfolding execute
  apply_command now k x s = refl

  accepted_Turn :
      (now : Time) (c : Command V) (s : CeremonyInstance V)
      → is_ok (execute to_value d now c s).1 ≡ true
      → Turn d now c (ledger s) true (ledger (execute to_value d now c s).0)
  accepted_Turn now (Command.start_step k l) s o =
      let (same, also) = start_command now k l s in
      subst (λ t. Turn d now (Command.start_step k l) (ledger s) true (ledger t)) (sym same)
        (start_step-Turn d k l now (Command.start_step k l) s refl (sym also ∙ o))
  accepted_Turn now (Command.start_step_as role k l) s o =
      let (same, also) = start_as_command now role k l s o in
      subst (λ t. Turn d now (Command.start_step_as role k l) (ledger s) true (ledger t)) (sym same)
        (start_step-Turn d k l now (Command.start_step_as role k l) s refl also)
  accepted_Turn now (Command.apply_step_result k x) s o =
      let c : Command V = Command.apply_step_result k x in
      let same = apply_command now k x s in
      subst (λ t. Turn d now c (ledger s) true (ledger t)) (sym (ap (λ q. q.0) same))
        (apply_Turn d k x now c s refl (ap (λ q. is_ok q.1) (sym same) ∙ o))
  accepted_Turn now c s o =
      subst (Turn d now c (ledger s) true) (sym (keeps_ledger now c s refl)) (Turn.aside refl refl)

  refused_same :
      (s : CeremonyInstance V) (q : CeremonyInstance V × Result ⊤)
      → Keeps s q
      → is_ok q.1 ≡ false
      → ledger q.0 ≡ ledger s
  refused_same s q k h = ground (arith, k, h)

  -- Every command does to the step records and the spent keys what a turn says: refused, it changes
  -- none of them. Accepted, a start has made an attempt at its step under its lease, where the step
  -- was free at the time of the command, the attempt the next one and within the retry policy, and
  -- the key unspent, which is now spent; a result has gone to its step, which was in progress; and
  -- any other command has changed none of them.
  pub execute-Turn :
      (now : Time) (c : Command V) (s : CeremonyInstance V)
      → Turn d now c
          (ledger s)
          (is_ok (execute to_value d now c s).1)
          (ledger (execute to_value d now c s).0)
  execute-Turn now c s = elim (Bool-cases (is_ok (execute to_value d now c s).1)) [
    | inl o ↦
        subst (λ b. Turn d now c (ledger s) b (ledger (execute to_value d now c s).0)) (sym o)
          (accepted_Turn now c s o)
    | inr o ↦
        let same =
          refused_same s (execute to_value d now c s) (execute-Keeps to_value d now c s) o in
        subst₂ (λ b g. Turn d now c (ledger s) b g) (sym o) (sym same) Turn.refused
  ]
