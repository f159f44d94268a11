-- ===== src/Core.antt =====
-- The SDK's core values: errors, capabilities, protocol versions and opaque values (src/core).
pub mod Errors
pub mod Capabilities
pub mod Version
pub mod OpaqueValues
