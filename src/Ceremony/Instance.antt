-- ===== src/Ceremony/Instance.antt =====
-- entities/ceremony_instance.rs: the state of one ceremony execution and the commands on it.
pub mod Data
pub mod Steps
pub mod Guards
pub mod Agenda
pub mod Reasons
pub mod Moves
pub mod Commands
pub mod Atomic
pub mod Placement
pub mod Terminal
pub mod Turns
pub mod Leases
pub mod Held
pub mod Exclusion
pub mod Approvals
