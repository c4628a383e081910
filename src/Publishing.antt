-- ===== src/Publishing.antt =====
-- Publishing the outbox: crates/choreo-app/src/usecases, publish_outbox_use_case.rs with its input
-- and its round.
pub mod Round
pub mod Backlog
pub mod Draining
pub mod Accounts
