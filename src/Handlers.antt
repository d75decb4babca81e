-- ===== src/Handlers.antt =====
-- src/proxy/handlers.rs: the request handlers.
pub mod Resolve
pub mod ResolveLaws
pub mod ProbeLeak
pub mod Response
pub mod Provider
pub mod Serving
pub mod Settle
pub mod Rows
pub mod Gate
pub mod StreamingPath
pub mod RetryPath
pub mod Chat
pub mod ChargeLaws
pub mod ChatLaws
pub mod ChatEnd
pub mod GateLeak
pub mod ProbeEnd
pub mod Streaming
pub mod StreamingLaws
pub mod Trailing
pub mod TrailingLaws
