-- ===== src/State.antt =====
-- crates/onesync-state: where the rows are kept.
pub mod Memory
pub mod Sql
