-- ===== src/Http.antt =====
-- Requests and responses (src/http).
pub mod RequestSnapshot
pub mod RequestBuilder
pub mod BoundedBody
pub mod HeaderValue
pub mod JsonWalk
pub mod ProtocolJson
pub mod JsonIntegers
pub mod Response
pub mod ResponseMetadata
pub mod ResponseDecoder
pub mod FetchTransport
