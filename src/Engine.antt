-- ===== src/Engine.antt =====
-- packages/core/src/engine: the parts below the scope.
pub mod Errors
pub mod Duration
pub mod Retry
pub mod Context
pub mod EventBus
pub mod Scope
