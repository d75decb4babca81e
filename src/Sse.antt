-- ===== src/Sse.antt =====
-- src/proxy/stream.rs: the observer of a provider's event stream.
pub mod Json
pub mod Observer
pub mod Bytes
pub mod Chunks
