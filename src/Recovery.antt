-- ===== src/Recovery.antt =====
-- packages/runtime-core/src/observability/recovery-service.ts: what the control plane does with the
-- work that it finds when it starts.
pub mod Attempts
pub mod Regions
pub mod Startup
pub mod Limits
pub mod Outcome
