-- ===== src/Artifacts.antt =====
-- packages/runtime-core/src/artifacts: the validation of staged artifacts.
pub mod Validation
pub mod Cache
