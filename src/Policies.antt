-- ===== src/Policies.antt =====
-- Policies: their evaluation (packages/runtime-core/src/policies/policy-decision-service.ts), and
-- the approvals that it asks for (operator/operator-command-service.ts).
pub mod Evaluate
pub mod Approvals
pub mod Replay
