-- ===== src/Run.antt =====
-- packages/core/src/run/index.ts: the policy wrappers over the scope engine.
pub mod Thrown
pub mod Breaker
pub mod Retry
pub mod Pool
pub mod Hedge
pub mod Supervise
