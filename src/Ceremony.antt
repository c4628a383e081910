-- ===== src/Ceremony.antt =====
-- The ceremony core of crates/choreo-core: the value objects and aggregates of a ceremony.
pub mod Attributes
pub mod Content
pub mod Evidence
pub mod Step
pub mod Guard
pub mod Definition
pub mod Intervention
pub mod Reason
pub mod Instance
