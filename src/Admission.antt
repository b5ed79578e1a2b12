-- ===== src/Admission.antt =====
-- packages/runtime-core/src/scheduling/resource-admission-service.ts: budgets along the region
-- tree, reservations against them, and the ledger of what was used.
pub mod Calculate
pub mod Usage
pub mod Reserve
pub mod Settle
pub mod Lease
pub mod Configure
