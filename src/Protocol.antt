-- ===== src/Protocol.antt =====
-- crates/onesync-protocol: the data the engine, the store and the adapters exchange.
pub mod Enums
pub mod Path
pub mod FileSide
pub mod Hash
pub mod Id
pub mod Remote
pub mod Entities
pub mod Account
