-- ===== src/Libc.antt =====
-- src/libc/common: the parts of the native C library that hold code of their own.
pub mod Memory
pub mod Text
pub mod Format
pub mod Environment
mod Tests
