-- ===== src/Engine/Limits.antt =====
-- The limits of crates/onesync-core/src/limits.rs that the modelled code reads.
use onesync.Prelude.{ℕ, ◌*◌}

abbrev pub kib : ℕ
kib = 1024

abbrev pub mib : ℕ
mib = 1024 * kib

abbrev pub retry_max_attempts : ℕ
retry_max_attempts = 5

abbrev pub retry_backoff_base_ms : ℕ
retry_backoff_base_ms = 1000

abbrev pub conflict_mtime_tolerance_ms : ℕ
conflict_mtime_tolerance_ms = 1000

abbrev pub conflict_rename_retries : ℕ
conflict_rename_retries = 8

abbrev pub graph_small_upload_max_bytes : ℕ
graph_small_upload_max_bytes = 4 * mib
