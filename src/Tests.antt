-- ===== src/Tests.antt =====
-- The theorems at concrete definitions, sessions and journals.
pub mod Sample
pub mod Definitions
pub mod Sessions
pub mod Journals
pub mod Deliberations
pub mod Stores
pub mod Rounds
pub mod Runs
pub mod UseCases
