-- ===== src/Hle.antt =====
-- crates/core/src/hle: what answers the guest's calls of system libraries and of the kernel.
pub mod Bytes
pub mod Stubs
pub mod Syscalls
pub mod ThreadFs
pub mod Signals
pub mod Exports
mod Tests
