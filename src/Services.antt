-- ===== src/Services.antt =====
-- Services of crates/choreo-app/src/services over the store.
pub mod Journal
pub mod Facts
