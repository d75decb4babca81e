-- ===== src/Request.antt =====
-- src/proxy/types.rs: the chat completion request and what is read out of it.
pub mod Types
pub mod Laws
