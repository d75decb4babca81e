-- ===== src/Vault.antt =====
-- src/proxy/vault.rs: billing through the vault.
pub mod Client
pub mod Calls
pub mod Reserve
pub mod Pending
pub mod Reconcile
pub mod Eviction
pub mod Loop
pub mod LoopLaws
pub mod LoopEnd
