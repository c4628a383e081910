-- ===== src/Ceremony/Evidence.antt =====
-- entities/ceremony_evidence_pack.rs, and the data of entities/external_context.rs.
use underpass_choreographer.Shared.{◌&&◌, not, String, Option, List, [], ◌∷◌, is_empty, is_some}
use underpass_choreographer.Shared.Result.{
  Result, ok, empty_field, empty_collection, invariant_violated, ensure, ok_or, ◌>>=◌, ◌>>◌,
}
use underpass_choreographer.Ceremony.Attributes.{Attributes, attributes_new}
use underpass_choreographer.Ceremony.Content.{CeremonyInterventionContent, intervention_content_new}
use underpass_choreographer.Ceremony.Step.Lease.{Time}

pub record ContextSummary (V : Type 0) : Type 0 where
  pub text : String
  pub attributes : Attributes V

pub record ContextItem (V : Type 0) : Type 0 where
  pub item_id : String
  pub kind : String
  pub title : String
  pub narrative : Option String
  pub attributes : Attributes V
  pub reference_ids : List String

pub record ContextReference (V : Type 0) : Type 0 where
  pub reference_id : String
  pub uri : String
  pub title : Option String
  pub media_type : Option String
  pub attributes : Attributes V

pub record ExternalContextBundle (V : Type 0) : Type 0 where
  pub bundle_id : String
  pub schema_version : String
  pub summary : Option (ContextSummary V)
  pub items : List (ContextItem V)
  pub references : List (ContextReference V)
  pub metadata : Attributes V

pub record CeremonyEvidencePack (V : Type 0) : Type 0 where
  pub source_id : String
  pub bundle : ExternalContextBundle V
  pub collected_at : Time

module _ {V : Type 0} where
  -- `CeremonyEvidencePack::new`
  unfoldable pub evidence_pack_new :
      String → ExternalContextBundle V → Time → Result (CeremonyEvidencePack V)
  evidence_pack_new source_id bundle collected_at = do
    ensure (is_some bundle.summary) (empty_field "ceremony_evidence_pack.summary")
    ensure (not (is_empty bundle.items && is_empty bundle.references))
        (empty_collection "ceremony_evidence_pack.evidence")
    ok (record { source_id = source_id; bundle = bundle; collected_at = collected_at })

  -- `CeremonyEvidencePack::intervention_content`; `to_value` is `serde_json::to_value`, which may
  -- fail.
  unfoldable pub pack_content :
      (CeremonyEvidencePack V → Option V)
      → CeremonyEvidencePack V
      → Result (CeremonyInterventionContent V)
  unfolding intervention_content_new attributes_new
  pack_content to_value pack = do
    summary ←
        ok_or pack.bundle.summary
          (invariant_violated "ceremony evidence pack must retain its summary")
    serialized ←
        ok_or (to_value pack)
          (invariant_violated "ceremony evidence pack could not be represented as attributes")
    details ← attributes_new (("evidence_pack", serialized) ∷ [])
    intervention_content_new summary.text details
