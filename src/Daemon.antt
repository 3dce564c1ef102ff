-- ===== src/Daemon.antt =====
-- crates/onesync-daemon/src: what the background service does around a cycle.
pub mod Config
pub mod PostCycle
pub mod Framing
pub mod Services
pub mod Pairs
pub mod Webhook
pub mod Scheduler
pub mod Tokens
pub mod Accounts
pub mod Subscriptions
