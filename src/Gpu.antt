-- ===== src/Gpu.antt =====
-- crates/gpu/src/liverpool: the command processor.
pub mod Pm4
pub mod Regs
pub mod CommandProcessor
mod Tests
