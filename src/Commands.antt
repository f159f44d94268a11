-- ===== src/Commands.antt =====
-- Commands before they are sent (src/commands).
pub mod Safety
pub mod Advertised
