-- ===== src/Retry.antt =====
-- src/proxy/retry.rs: retry on the primary provider, fallback to the next, and the retries header.
pub mod Attempts
pub mod Laws
pub mod Header
pub mod Counts
