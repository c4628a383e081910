-- ===== src/Ceremony/Instance/Agenda.antt =====
-- entities/ceremony_instance.rs: how an agenda item is opened, answered and closed.
use underpass_choreographer.Shared.{
  not, String, Option, none, some, List, [], ◌∷◌, ◌++◌, any, is_some, ◌==◌, if◌then◌else◌, ⊤,
}
use underpass_choreographer.Shared.Map.{lookup}
use underpass_choreographer.Shared.Result
use underpass_choreographer.Shared.Result.{
  Result, ok, err, invariant_violated, not_found, already_exists, ensure, ok_or,
}
use underpass_choreographer.Shared.Action.{Action, check, put, get, lift, guard, ◌>>=◌, ◌>>◌}
use underpass_choreographer.Ceremony.Step.Lease.{Time}
use underpass_choreographer.Ceremony.Guard.{
  CeremonyContext, request_intervention, respond_to_intervention,
}
use underpass_choreographer.Ceremony.Content.{CeremonyInterventionContent}
use underpass_choreographer.Ceremony.Evidence.{CeremonyEvidencePack}
use underpass_choreographer.Ceremony.Definition.Data.{CeremonyDefinition, role_allows}
use underpass_choreographer.Ceremony.Intervention.Data.{
  CeremonyIntervention, CeremonyInterventionKind, CeremonyInterventionTarget,
  CeremonyInterventionProvenance, accepts, has_response, ensure_can_respond, open_with_provenance,
  respond, respond_with_evidence, close,
}
use underpass_choreographer.Ceremony.Instance.Data.{
  CeremonyInstance, intervention, require_active, require_role,
}
use underpass_choreographer.Ceremony.Instance.Reasons.{record_that_it_answers}

-- ports/ceremony_evidence_request.rs
pub record CeremonyEvidenceRequest (V : Type 0) : Type 0 where
  pub instance_id : String
  pub intervention_id : String
  pub role_id : String
  pub source_id : String
  pub query : CeremonyInterventionContent V
  pub context : CeremonyContext V

module _ {V : Type 0} where
  -- The loop over the targeted roles: the first that cannot respond ends it.
  unfoldable pub require_target_roles : CeremonyDefinition V → List String → Result ⊤
  require_target_roles d [] = ok tt
  require_target_roles d (role_id ∷ rest) =
      Result.◌>>◌
        (ensure (is_some (lookup role_id d.roles)) (not_found "ceremony_intervention.target_role"))
        (Result.◌>>◌
          (ensure (role_allows d role_id respond_to_intervention)
            (invariant_violated "target role cannot respond to ceremony interventions"))
          (require_target_roles d rest))

  unfoldable pub require_intervention_target :
      CeremonyDefinition V → CeremonyInterventionTarget → Result ⊤
  unfolding require_target_roles
  require_intervention_target d CeremonyInterventionTarget.table = ok tt
  require_intervention_target d (CeremonyInterventionTarget.roles role_ids) =
      require_target_roles d role_ids

  -- What the source item, once found, must satisfy.
  abbrev source_allows :
      CeremonyDefinition V
      → String
      → CeremonyInterventionTarget
      → CeremonyInterventionProvenance
      → CeremonyIntervention V
      → Result ⊤
  source_allows d requested_by target p source =
      Result.◌>>◌
        (ensure (source.requested_by == requested_by)
          (invariant_violated "only the source requester can select an intervention response"))
        (Result.◌>>◌
          (ensure (has_response source.responses p.source_response_role)
            (not_found "ceremony_intervention.provenance_response"))
          (Result.◌>>◌
            (ensure (is_some (lookup p.selected_role d.roles))
              (not_found "ceremony_intervention.provenance_selected_role"))
            (Result.◌>>◌
              (ensure (role_allows d p.selected_role respond_to_intervention)
                (invariant_violated "selected intervention role cannot respond"))
              (ensure (accepts target p.selected_role)
                (invariant_violated "intervention target does not include the selected role")))))

  unfoldable pub require_intervention_provenance :
      CeremonyDefinition V
      → String
      → CeremonyInterventionTarget
      → CeremonyInterventionProvenance
      → CeremonyInstance V
      → Result ⊤
  require_intervention_provenance d requested_by target p s =
      Result.◌>>=◌
        (ok_or (intervention p.source_intervention s)
          (not_found "ceremony_intervention.provenance_source"))
        (source_allows d requested_by target p)

  -- `if let Some(provenance)`
  abbrev check_provenance :
      CeremonyDefinition V
      → String
      → CeremonyInterventionTarget
      → Option CeremonyInterventionProvenance
      → CeremonyInstance V
      → Result ⊤
  check_provenance d requested_by target none s = ok tt
  check_provenance d requested_by target (some p) s =
      require_intervention_provenance d requested_by target p s

  unfoldable pub request_intervention_with_provenance_as :
      CeremonyDefinition V
      → String
      → String
      → CeremonyInterventionKind
      → CeremonyInterventionTarget
      → CeremonyInterventionContent V
      → Option CeremonyInterventionProvenance
      → Time
      → Action (CeremonyInstance V) ⊤
  unfolding require_active require_role
  request_intervention_with_provenance_as d intervention_id role_id kind target content provenance
        now =
      do
        check (require_active d "terminal ceremony instances cannot accept interventions")
        check (require_role d role_id request_intervention)
        lift (require_intervention_target d target)
        check (check_provenance d role_id target provenance)
        s ← get
        guard (not (any (λ i. i.id == intervention_id) s.interventions))
            (already_exists "ceremony_intervention")
        put (record s {
          interventions =
              s.interventions
              ++ open_with_provenance intervention_id kind role_id target content provenance now
                ∷ [];
          updated_at = now;
        })

  unfoldable pub request_intervention_as :
      CeremonyDefinition V
      → String
      → String
      → CeremonyInterventionKind
      → CeremonyInterventionTarget
      → CeremonyInterventionContent V
      → Time
      → Action (CeremonyInstance V) ⊤
  unfolding request_intervention_with_provenance_as
  request_intervention_as d intervention_id role_id kind target content now =
      request_intervention_with_provenance_as d intervention_id role_id kind target content none now

  -- `interventions.iter_mut().find(..).ok_or(..)?.method(..)?`
  unfoldable pub amend :
      String
      → Action (CeremonyIntervention V) ⊤
      → List (CeremonyIntervention V)
      → List (CeremonyIntervention V) × Result ⊤
  amend intervention_id method [] = ([], err (not_found "ceremony_intervention"))
  amend intervention_id method (i ∷ is) =
      let (i', r) = method i in
      let (is', r') = amend intervention_id method is in
      if i.id == intervention_id then (i' ∷ is, r) else (i ∷ is', r')

  unfoldable pub on_intervention :
      String → Action (CeremonyIntervention V) ⊤ → Action (CeremonyInstance V) ⊤
  unfolding amend
  on_intervention intervention_id method s =
      let (is', r) = amend intervention_id method s.interventions in
      (record s { interventions = is' }, r)

  -- What follows an accepted response.
  abbrev note_answer : String → Time → Action (CeremonyInstance V) ⊤
  note_answer intervention_id now s =
      (record (record_that_it_answers intervention_id now s) { updated_at = now }, ok tt)

  unfoldable pub respond_to_intervention_as :
      CeremonyDefinition V
      → String
      → String
      → CeremonyInterventionContent V
      → Time
      → Action (CeremonyInstance V) ⊤
  unfolding require_active require_role
  respond_to_intervention_as d intervention_id role_id content now = do
    check (require_active d "terminal ceremony instances cannot receive intervention responses")
    check (require_role d role_id respond_to_intervention)
    on_intervention intervention_id (respond role_id content now)
    note_answer intervention_id now

  -- `to_value` is `serde_json::to_value` of an evidence pack.
  unfoldable pub respond_to_intervention_with_evidence_as :
      (CeremonyEvidencePack V → Option V)
      → CeremonyDefinition V
      → String
      → String
      → CeremonyEvidencePack V
      → Time
      → Action (CeremonyInstance V) ⊤
  unfolding require_active require_role
  respond_to_intervention_with_evidence_as to_value d intervention_id role_id pack now = do
    check (require_active d "terminal ceremony instances cannot receive intervention evidence")
    check (require_role d role_id respond_to_intervention)
    on_intervention intervention_id (respond_with_evidence to_value role_id pack now)
    note_answer intervention_id now

  unfoldable pub prepare_evidence_request_as :
      CeremonyDefinition V
      → String
      → String
      → String
      → CeremonyInterventionContent V
      → CeremonyInstance V
      → Result (CeremonyEvidenceRequest V)
  unfolding require_active require_role
  prepare_evidence_request_as d intervention_id role_id source_id query s =
      Result.◌>>◌
        (require_active d "terminal ceremony instances cannot collect intervention evidence" s)
        (Result.◌>>◌ (require_role d role_id respond_to_intervention s) (
          Result.◌>>=◌ (ok_or (intervention intervention_id s) (not_found "ceremony_intervention"))
            λ i. Result.◌>>◌ (ensure_can_respond role_id i) (
              ok (record {
                instance_id = s.id;
                intervention_id = intervention_id;
                role_id = role_id;
                source_id = source_id;
                query = query;
                context = s.context;
              }))))

  unfoldable pub close_intervention_as :
      CeremonyDefinition V → String → String → Time → Action (CeremonyInstance V) ⊤
  unfolding require_active require_role
  close_intervention_as d intervention_id role_id now = do
    check (require_active d "terminal ceremony instances cannot close interventions")
    check (require_role d role_id request_intervention)
    on_intervention intervention_id (close role_id now)
    s ← get
    put (record s { updated_at = now })
