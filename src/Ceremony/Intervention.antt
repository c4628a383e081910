-- ===== src/Ceremony/Intervention.antt =====
-- entities/ceremony_intervention.rs, with value_objects/ceremony/ceremony_intervention_target.rs,
-- ceremony_intervention_kind.rs, ceremony_intervention_status.rs,
-- ceremony_intervention_provenance.rs, ceremony_intervention_content.rs and
-- ceremony_intervention_response.rs.
pub mod Data
