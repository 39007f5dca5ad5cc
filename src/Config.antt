-- ===== src/Config.antt =====
-- src/config.c: the configuration file. Its parts are in the child modules.
pub mod Types
pub mod Text
pub mod Assign
pub mod Load
