-- ===== src/Store.antt =====
-- The store of ceremonies: its data, its operations, and what they keep.
pub mod Data
pub mod Operations
pub mod Outbox
pub mod Requests
pub mod Sealing
pub mod Journals
pub mod Entries
pub mod Later
pub mod Revisions
pub mod Claiming
pub mod Taking
pub mod Holding
