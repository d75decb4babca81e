-- ===== src/Config.antt =====
-- src/config.rs: the configuration after it is read: keys, references to variables, validation.
pub mod Expand
pub mod Template
pub mod Keys
pub mod KeysLaws
