-- ===== src/Ceremony/Instance/Terminal.antt =====
-- A session in a terminal state is over: entities/ceremony_instance.rs, the checks for it.
use underpass_choreographer.Shared.{
  ◌≡◌, refl, sym, ap, subst, ◌∙◌, inl, inr, Option-cases, true, String, Option, List, [], ◌∷◌,
  arith, eq_iff,
}
use underpass_choreographer.Shared.Map.{lookup}
use underpass_choreographer.Ceremony.Attributes.{Json}
use underpass_choreographer.Ceremony.Step.Lease.{Time}
use underpass_choreographer.Ceremony.Step.Record.{StepResult}
use underpass_choreographer.Ceremony.Evidence.{CeremonyEvidencePack}
use underpass_choreographer.Ceremony.Definition.Data.{CeremonyDefinition, is_terminal_state}
use underpass_choreographer.Ceremony.Definition.WellFormed.{WellFormed}
use underpass_choreographer.Ceremony.Definition.Lookup.{found_step}
use underpass_choreographer.Ceremony.Reason.{CeremonyReason}
use underpass_choreographer.Ceremony.Instance.Data.{
  CeremonyInstance, is_terminal, matches_definition,
}
use underpass_choreographer.Ceremony.Instance.Steps.{start_step, start_step_as, apply_step_result}
use underpass_choreographer.Ceremony.Instance.Guards.{approve_guard, defer_guard, bind_participant}
use underpass_choreographer.Ceremony.Instance.Agenda.{
  request_intervention_with_provenance_as, respond_to_intervention_as,
  respond_to_intervention_with_evidence_as, close_intervention_as,
}
use underpass_choreographer.Ceremony.Instance.Reasons.{assert_reason_as}
use underpass_choreographer.Ceremony.Instance.Moves.{apply_transition, apply_transition_as}
use underpass_choreographer.Ceremony.Instance.Commands.{Command, execute, run}

module _ {V : Type 0} ⦃j : Json V⦄ (d : CeremonyDefinition V) where
  still_over :
      (t s : CeremonyInstance V) (reasons : List CeremonyReason) (at : Time)
      → t ≡ record s { reasons = reasons; updated_at = at }
      → is_terminal d s ≡ true
      → is_terminal d t ≡ true
  unfolding is_terminal matches_definition
  still_over t s reasons at e h = subst (λ x. is_terminal d x ≡ true) (sym e) h

  -- In a terminal state no step has a result to apply, since no live state is terminal.
  apply_step_result_over :
      (w : WellFormed d) (k : String) (r : StepResult V) (now : Time) (s : CeremonyInstance V)
      → is_terminal d s ≡ true
      → (apply_step_result d k r now s).0 ≡ s
  unfolding apply_step_result is_terminal is_terminal_state
  apply_step_result_over w k r now s h = elim (Option-cases (lookup k d.steps)) [
    | inl e ↦ ground (arith, e)
    | inr (st, e) ↦ ground (arith, e, found_step d w k e, eq_iff st.state_id s.current_state)
  ]

  module _ (w : WellFormed d) (to_value : CeremonyEvidencePack V → Option V) where
    -- Beside a reason, which may still be given, nothing of a session changes once it is over.
    pub execute_over :
        (now : Time) (c : Command V) (s : CeremonyInstance V)
        → is_terminal d s ≡ true
        → let t = (execute to_value d now c s).0 in
          t ≡ record s { reasons = t.reasons; updated_at = t.updated_at }
    unfolding execute start_step start_step_as approve_guard defer_guard bind_participant
        request_intervention_with_provenance_as respond_to_intervention_as
        respond_to_intervention_with_evidence_as close_intervention_as assert_reason_as
        apply_transition apply_transition_as
    execute_over now (Command.apply_step_result k r) s h =
        ground (arith, apply_step_result_over w k r now s h)
    execute_over now (Command.assert_reason role from to kind why confidence) s h = ground arith
    execute_over now c s h = ground arith

    -- On a well-formed definition, a session that is over does not change under any commands,
    -- whether they are accepted or refused, but for its reasons and its last update.
    pub run_over :
        (cs : List (Time × Command V)) (s : CeremonyInstance V)
        → is_terminal d s ≡ true
        → let t = run to_value d cs s in
          t ≡ record s { reasons = t.reasons; updated_at = t.updated_at }
    unfolding run
    run_over [] s h = refl
    run_over ((now, c) ∷ cs) s h =
        let e = execute_over now c s h in
        let t = run to_value d cs (execute to_value d now c s).0 in
        run_over cs (execute to_value d now c s).0 (still_over _ s _ _ e h)
        ∙ ap
            (λ (x : CeremonyInstance V). record x {
              reasons = t.reasons;
              updated_at = t.updated_at;
            })
            e
