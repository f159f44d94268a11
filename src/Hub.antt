-- ===== src/Hub.antt =====
-- The client of the current Hub (src/hub).
pub mod Drives
pub mod Sessions
pub mod Validate
pub mod Failures
pub mod Credentials
pub mod Claims
pub mod Pairing
pub mod Reads
