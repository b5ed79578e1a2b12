-- ===== src/Scheduler.antt =====
-- packages/runtime-core/src/scheduling/scheduler-service.ts and lease.ts: how an attempt of an
-- execution is leased to a worker.
pub mod Groups
pub mod Select
pub mod Executions
pub mod Candidate
pub mod Lease
pub mod Inputs
pub mod Leases
pub mod SameWork
pub mod Claims
pub mod Rounds
pub mod Loop
