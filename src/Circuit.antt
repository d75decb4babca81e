-- ===== src/Circuit.antt =====
-- src/proxy/circuit_breaker.rs: the circuit breakers of the providers.
pub mod Breaker
pub mod Invariant
pub mod Trip
pub mod Diagram
pub mod Probe
pub mod Registry
pub mod RegistryLaws
pub mod Independence
pub mod Permit
pub mod Guard
