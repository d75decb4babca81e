-- ===== src/Server.antt =====
-- src/proxy/server.rs: who may call what, and the state that the server starts with.
pub mod Auth
pub mod StartUp
pub mod Command
pub mod CommandLaws
