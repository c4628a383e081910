-- ===== src/Audit.antt =====
-- The journal of a ceremony: entities/audit_record.rs and entities/audit_chain.rs, with
-- value_objects/audit.
pub mod Bytes
pub mod Record
pub mod Encoding
pub mod Chain
pub mod Tamper
