-- ===== src/FsLocal.antt =====
-- crates/onesync-fs-local: the adapter of the local file system.
pub mod Paths
pub mod Scan
