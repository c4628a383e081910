-- ===== src/Deliberation.antt =====
-- entities/deliberation.rs, with entities/proposal.rs and entities/validation.rs: one deliberation,
-- from its proposals to their ranking.
pub mod Data
pub mod Phases
pub mod Cover
pub mod Ranking
pub mod Selection
pub mod Named
pub mod Winner
