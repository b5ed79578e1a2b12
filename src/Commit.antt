-- ===== src/Commit.antt =====
-- packages/runtime-core/src/commit/execution-commit-service.ts: a worker's result becomes the
-- truth of the runtime in one transaction, or leaves no trace.
pub mod Steps
pub mod Authority
pub mod Staged
pub mod Actions
pub mod Publish
pub mod Finish
pub mod Submit
pub mod Fencing
pub mod Retries
pub mod Disposed
pub mod Rollback
pub mod Checks
