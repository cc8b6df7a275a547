-- ===== src/Config.antt =====
-- src/config.c: the lexical level of the configuration parser.
pub mod Cursor
pub mod Strings
pub mod Integers
pub mod Values
pub mod Grammar
pub mod Schema
pub mod Lines
pub mod Validation
pub mod Document
mod Tests
