-- ===== src/Tests.antt =====
-- Concrete runs: small surroundings for the engine, and each theorem at an input where it says
-- something.
pub mod Fakes
pub mod Cycle
pub mod Names
pub mod Parking
pub mod Store
pub mod Adapter
pub mod Service
pub mod Token
pub mod Tables
pub mod Scanning
pub mod Signing
