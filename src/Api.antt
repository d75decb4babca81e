-- ===== src/Api.antt =====
-- src/proxy/logs.rs, src/proxy/stats.rs, src/proxy/validation.rs and the small handlers of
-- src/proxy/handlers.rs.
pub mod Range
pub mod Logs
pub mod Stats
pub mod Weights
pub mod StatsLaws
pub mod Pages
pub mod Health
pub mod Estimate
pub mod Listing
