-- ===== src/Kernel.antt =====
-- crates/core/src/kernel: the kernel's services.
pub mod Error
pub mod MemorySyscalls
pub mod EventQueue
pub mod Threading
pub mod FileSystem
mod Tests
