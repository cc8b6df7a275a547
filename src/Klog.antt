-- ===== src/Klog.antt =====
-- src/dominit0/klog.c: the log of dominit0.
pub mod Format
pub mod Store
pub mod Emit
pub mod Setup
mod Tests
