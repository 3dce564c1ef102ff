-- ===== src/Engine.antt =====
-- crates/onesync-core/src: the sync engine, its limits and its policies.
pub mod Limits
pub mod Types
pub mod Reconcile
pub mod Planner
pub mod Retry
pub mod Conflict
pub mod CaseCollision
pub mod Ports
pub mod Executor
pub mod Observability
pub mod Cycle
