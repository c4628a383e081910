-- ===== src/Running/Telling.antt =====
-- What a run tells of its steps: the traces and the transcript of
-- crates/choreo-app/src/usecases/run_ceremony_use_case.rs.
use underpass_choreographer.Shared.{◌≡◌, true, List, ◌++◌, map, All}
use underpass_choreographer.Shared.Result.{ok}
use underpass_choreographer.Shared.Action.{Action}
use underpass_choreographer.Ceremony.Attributes.{Json}
use underpass_choreographer.Ceremony.Step.Record.{is_success}
use underpass_choreographer.Ceremony.Definition.Data.{role_id_for_step}
use underpass_choreographer.Audit.Record.{Platform}
use underpass_choreographer.Store.Data.{Store}
use underpass_choreographer.Running.Data.{
  RunCeremonyInput, Progress, CeremonyStepTrace, CeremonyStepContribution,
}
use underpass_choreographer.Running.Preparing.{Surroundings}

module _ {V : Type 0} where
  abbrev pub contribution : CeremonyStepTrace V → CeremonyStepContribution V
  contribution t = record { step_id = t.step_id; role_id = t.role_id; output = t.output }

module _ {V : Type 0} ⦃j : Json V⦄ ⦃p : Platform⦄ (w : Surroundings V) (input : RunCeremonyInput V)
    (before : List (CeremonyStepContribution V)) where
  -- A trace of a step that succeeded, run by the role that the definition has for it.
  abbrev pub Succeeded : CeremonyStepTrace V → Type 0
  Succeeded t =
      (is_success t.status ≡ true) × (role_id_for_step input.definition t.step_id ≡ ok t.role_id)

  abbrev pub Told : Progress V → Type 0
  Told q = (q.transcript ≡ before ++ map contribution q.traces) × All Succeeded q.traces
