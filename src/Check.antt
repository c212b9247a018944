-- ===== src/Check.antt =====
-- lib/check: what the kernel and the filesystems of the host offer.
pub mod Filesystems
pub mod Kernel
