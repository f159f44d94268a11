-- ===== src/Events.antt =====
-- Server-sent events (src/events).
pub mod SseParser
pub mod SseStream
pub mod Subscription
pub mod ProtocolEvents
pub mod EventDecoder
