-- ===== src/Kernel.antt =====
-- src/sys/kernel/mod.rs, one module for each type or family of files under /proc/sys/kernel.
pub mod Calm
pub mod Closed
pub mod Settled
pub mod Version
pub mod BuildInfo
pub mod Semaphores
pub mod SysRq
pub mod Limits
