-- ===== src/Ceremony/Definition.antt =====
-- entities/ceremony_definition.rs and entities/ceremony_definition_analysis.rs: the declarative
-- state machine of a ceremony, how a definition is checked, and how it is read.
pub mod Data
pub mod Reachability
pub mod Reached
pub mod Finishing
pub mod Analysis
pub mod New
pub mod WellFormed
pub mod Validate
pub mod Lookup
pub mod Built
