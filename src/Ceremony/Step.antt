-- ===== src/Ceremony/Step.antt =====
-- The lease, the attempt, the status and the execution record of one step:
-- value_objects/ceremony/step_lease.rs, step_attempt.rs, retry_policy.rs, step_status.rs,
-- step_result.rs and step_execution_record.rs, with value_objects/duration.rs.
-- A time is the number of nanoseconds since the first one that `OffsetDateTime` represents.
pub mod Lease
pub mod Record
