-- ===== src/Client.antt =====
-- The rich client (src/client).
pub mod Pages
pub mod Options
pub mod Identity
pub mod Session
pub mod ReadCalls
pub mod Reads
pub mod Writes
pub mod Commands
