-- ===== src/Engine/Cycle.antt =====
-- crates/onesync-core/src/engine/cycle.rs, one module for each of its phases.
pub mod Context
pub mod Sides
pub mod Buckets
pub mod Collisions
pub mod Delta
pub mod LocalScan
pub mod Resolve
pub mod Execute
pub mod Run
