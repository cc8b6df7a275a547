-- ===== src/Config/Schema.antt =====
-- src/config.c: what the tables of a configuration mean.
pub mod Checks
pub mod Records
pub mod Keys
pub mod Domains
pub mod Tables
pub mod Gives
