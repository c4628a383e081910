-- ===== src/Ceremony/Instance/Placement.antt =====
-- Where a session stands: its state is declared, it is completed exactly in a terminal state, and
-- its moves are a path through the definition. entities/ceremony_instance.rs, `move_on`.
use underpass_choreographer.Shared.{
  ◌≡◌, refl, sym, ap, subst, ◌∙◌, ◌⊎◌, inl, inr, Option-cases, Bool, true, false, ◌&&◌, String,
  Option, none, some, List, [], ◌∷◌, ◌++◌, arith, is_some, ◌==◌, ⊤,
}
use mathlib.Core.Path.{subst₂}
use underpass_choreographer.Shared.Map.{Map}
use underpass_choreographer.Shared.Action.{Action}
use underpass_choreographer.Ceremony.Attributes.{Json}
use underpass_choreographer.Ceremony.Step.Lease.{Time}
use underpass_choreographer.Ceremony.Evidence.{CeremonyEvidencePack}
use underpass_choreographer.Ceremony.Definition.Data.{
  CeremonyDefinition, CeremonyTransition, transition_for_trigger, is_terminal_state,
}
use underpass_choreographer.Ceremony.Definition.WellFormed.{WellFormed, IsDeclared}
use underpass_choreographer.Ceremony.Definition.Lookup.{found_transition}
use underpass_choreographer.Ceremony.Intervention.Data.{
  CeremonyIntervention, respond, respond_with_evidence, close,
}
use underpass_choreographer.Ceremony.Instance.Data.{
  CeremonyInstance, CeremonyTransitionRecord, matches_definition, is_terminal,
}
use underpass_choreographer.Ceremony.Instance.Steps.{start_step, start_step_as, apply_step_result}
use underpass_choreographer.Ceremony.Instance.Guards.{approve_guard, defer_guard, bind_participant}
use underpass_choreographer.Ceremony.Instance.Agenda.{
  on_intervention, request_intervention_with_provenance_as, respond_to_intervention_as,
  respond_to_intervention_with_evidence_as, close_intervention_as,
}
use underpass_choreographer.Ceremony.Instance.Reasons.{assert_reason_as, record_that_it_answers}
use underpass_choreographer.Ceremony.Instance.Moves.{apply_transition, apply_transition_as, move_on}
use underpass_choreographer.Ceremony.Instance.Commands.{Command, execute, run}

abbrev pub EndsAt : String → Option CeremonyTransition → Type 0
EndsAt b none = ⊥
EndsAt b (some t) = t.to ≡ b

module _ {V : Type 0} where
  -- The records are a path through the declared transitions, from one state to another.
  abbrev pub Leads : CeremonyDefinition V → String → List CeremonyTransitionRecord → String → Type 0
  Leads d a [] b = a ≡ b
  Leads d a (r ∷ rs) b =
      (r.from_state ≡ a)
      × EndsAt r.to_state (transition_for_trigger d r.from_state r.trigger)
      × Leads d r.to_state rs b

  Leads-snoc :
      (d : CeremonyDefinition V) (a b : String) (rs : List CeremonyTransitionRecord)
      (r : CeremonyTransitionRecord)
      → Leads d a rs b
      → r.from_state ≡ b
      → EndsAt r.to_state (transition_for_trigger d r.from_state r.trigger)
      → Leads d a (rs ++ r ∷ []) r.to_state
  Leads-snoc d a b [] r h e t = (e ∙ sym h, t, refl)
  Leads-snoc d a b (q ∷ rs) r h e t = (h.0, h.1, Leads-snoc d q.to_state b rs r h.2 e t)

  pub record IsPlaced (d : CeremonyDefinition V) (origin : String) (s : CeremonyInstance V)
      : Type 0 where
    pub named : matches_definition d s ≡ true
    pub placed : IsDeclared d.states s.current_state
    pub finished : is_some s.completed_at ≡ is_terminal_state d s.current_state
    pub history : Leads d origin s.transitions s.current_state

abbrev pub Placement : Type 0
Placement = String × String × String × Option Time × List CeremonyTransitionRecord

abbrev pub is_move : {V : Type 0} → Command V → Bool
is_move (Command.apply_transition _) = true
is_move (Command.apply_transition_as _ _) = true
is_move _ = false

module _ {V : Type 0} where
  abbrev pub placement : CeremonyInstance V → Placement
  placement s =
      (s.definition_name, s.definition_version, s.current_state, s.completed_at, s.transitions)

  on_intervention_stays :
      (id : String) (m : Action (CeremonyIntervention V) ⊤) (s : CeremonyInstance V)
      → placement (on_intervention id m s).0 ≡ placement s
  unfolding on_intervention
  on_intervention_stays id m s = refl

  answers_stays :
      (item : String) (now : Time) (s : CeremonyInstance V)
      → placement (record_that_it_answers item now s) ≡ placement s
  unfolding record_that_it_answers
  answers_stays item now s = ground arith

module _ {V : Type 0} ⦃j : Json V⦄ (to_value : CeremonyEvidencePack V → Option V) where
  -- Only a transition moves a session: no other command changes its definition, its state, its
  -- moves or its completion.
  pub stays :
      (d : CeremonyDefinition V) (now : Time) (c : Command V) (s : CeremonyInstance V)
      → is_move c ≡ false
      → placement (execute to_value d now c s).0 ≡ placement s
  unfolding execute start_step start_step_as apply_step_result approve_guard defer_guard
      bind_participant request_intervention_with_provenance_as respond_to_intervention_as
      respond_to_intervention_with_evidence_as close_intervention_as assert_reason_as
  stays d now (Command.start_step k l) s h = ground arith
  stays d now (Command.start_step_as role k l) s h = ground arith
  stays d now (Command.apply_step_result k r) s h = ground arith
  stays d now (Command.approve_guard g role kind) s h = ground arith
  stays d now (Command.defer_guard g content role kind) s h = ground arith
  stays d now (Command.bind_participant role specialty) s h = ground arith
  stays d now (Command.request_intervention id role kind target content p) s h = ground arith
  stays d now (Command.respond_to_intervention id role content) s h = ground (
    arith,
    on_intervention_stays id (respond role content now) s,
    answers_stays id now (on_intervention id (respond role content now) s).0,
  )
  stays d now (Command.respond_with_evidence id role pack) s h = ground (
    arith,
    on_intervention_stays id (respond_with_evidence to_value role pack now) s,
    answers_stays id now (on_intervention id (respond_with_evidence to_value role pack now) s).0,
  )
  stays d now (Command.close_intervention id role) s h =
      ground (arith, on_intervention_stays id (close role now) s)
  stays d now (Command.assert_reason role from to kind why confidence) s h = ground arith
  stays d now (Command.apply_transition trigger) s h = cc
  stays d now (Command.apply_transition_as role trigger) s h = cc

module _ {V : Type 0} ⦃j : Json V⦄ (to_value : CeremonyEvidencePack V → Option V) where
  applied :
      (d : CeremonyDefinition V) (now : Time) (trigger : String) (s : CeremonyInstance V)
      → (execute to_value d now (Command.apply_transition trigger) s).0
        ≡ (move_on d trigger none now s).0
  unfolding execute apply_transition
  applied d now trigger s = ground arith

  -- A transition by a role is refused, or is the move.
  applied_as :
      (d : CeremonyDefinition V) (now : Time) (role trigger : String) (s : CeremonyInstance V)
      → ((execute to_value d now (Command.apply_transition_as role trigger) s).0 ≡ s)
        ⊎ ((execute to_value d now (Command.apply_transition_as role trigger) s).0
            ≡ (move_on d trigger (some role) now s).0)
  unfolding execute apply_transition_as
  applied_as d now role trigger s = ground arith

module _ {V : Type 0} ⦃j : Json V⦄ (d : CeremonyDefinition V) (w : WellFormed d)
    (origin : String) where
  move_on-IsPlaced :
      (trigger : String) (by : Option String) (now : Time) (s : CeremonyInstance V)
      → IsPlaced d origin s
      → IsPlaced d origin (move_on d trigger by now s).0
  unfolding move_on is_terminal matches_definition
  move_on-IsPlaced trigger by now s p =
      elim (Option-cases (transition_for_trigger d s.current_state trigger)) [
        | inl e ↦ ground (arith, e)
        | inr (t, e) ↦ ground (
          arith,
          e,
          found_transition d w s.current_state trigger e,
          Leads-snoc d origin s.current_state s.transitions (record {
            trigger = trigger;
            from_state = s.current_state;
            to_state = t.to;
            applied_by = by;
            applied_at = now;
          }),
        )
      ]

  frame-IsPlaced :
      (s t : CeremonyInstance V)
      → placement t ≡ placement s
      → IsPlaced d origin s
      → IsPlaced d origin t
  unfolding matches_definition
  frame-IsPlaced s t e p =
      let e_state = ap (λ (q : Placement). q.2) e in
      record {
        named =
            subst₂ (λ a b. ((a == d.name) && (b == d.version)) ≡ true)
              (sym (ap (λ (q : Placement). q.0) e)) (sym (ap (λ (q : Placement). q.1) e)) p.named;
        placed = subst (IsDeclared d.states) (sym e_state) p.placed;
        finished =
            subst₂ (λ a b. is_some a ≡ is_terminal_state d b) (sym (ap (λ (q : Placement). q.3) e))
              (sym e_state) p.finished;
        history =
            subst₂ (λ a b. Leads d origin a b) (sym (ap (λ (q : Placement). q.4) e)) (sym e_state)
              p.history;
      }

  module _ (to_value : CeremonyEvidencePack V → Option V) where
    -- Whatever the command, a session that is placed stays so.
    pub execute-IsPlaced :
        (now : Time) (c : Command V) (s : CeremonyInstance V)
        → IsPlaced d origin s
        → IsPlaced d origin (execute to_value d now c s).0
    execute-IsPlaced now (Command.apply_transition trigger) s p =
        subst (IsPlaced d origin) (sym (applied to_value d now trigger s))
          (move_on-IsPlaced trigger none now s p)
    execute-IsPlaced now (Command.apply_transition_as role trigger) s p =
        elim (applied_as to_value d now role trigger s) [
          | inl same ↦ subst (IsPlaced d origin) (sym same) p
          | inr moved ↦
              subst (IsPlaced d origin) (sym moved) (move_on-IsPlaced trigger (some role) now s p)
        ]
    execute-IsPlaced now c s p = frame-IsPlaced s _ (stays to_value d now c s refl) p

    -- On a well-formed definition, any commands, whether they are accepted or refused, leave a
    -- session placed that was placed: in a declared state, completed exactly in a terminal one,
    -- with moves that are a path through the declared transitions.
    pub run-IsPlaced :
        (cs : List (Time × Command V)) (s : CeremonyInstance V)
        → IsPlaced d origin s
        → IsPlaced d origin (run to_value d cs s)
    unfolding run
    run-IsPlaced [] s p = p
    run-IsPlaced ((now, c) ∷ cs) s p =
        run-IsPlaced cs (execute to_value d now c s).0 (execute-IsPlaced now c s p)
