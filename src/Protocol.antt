-- ===== src/Protocol.antt =====
-- The protocol: the discovery descriptor, its capabilities, and the choice of a version
-- (src/protocol).
pub mod Models
pub mod Capabilities
pub mod Negotiation
