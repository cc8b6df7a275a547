-- ===== src/Initrd.antt =====
-- src/dominit0/initrd.c: the read-only file store of a CPIO image.
pub mod Path
pub mod Image
pub mod Access
pub mod Listing
mod Tests
