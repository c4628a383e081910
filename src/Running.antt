-- ===== src/Running.antt =====
-- Running a ceremony to its end: crates/choreo-app/src/usecases/run_ceremony_use_case.rs.
pub mod Data
pub mod Preparing
pub mod Driver
pub mod Kept
pub mod Finished
pub mod Telling
