-- ===== src/Worker.antt =====
-- packages/runtime-core/src/worker/worker-protocol-service.ts: what a worker may ask of the control
-- plane while it holds an attempt.
pub mod Normalize
pub mod Attempts
pub mod Submission
pub mod Refusals
pub mod Staging
pub mod Upload
pub mod Staged
pub mod Heartbeats
pub mod Identity
