-- ===== src/UseCases.antt =====
-- Use cases of crates/choreo-app/src/usecases that put one command of a session between a load and a
-- commit.
pub mod Transition
pub mod Landing
pub mod Storing
