-- ===== src/Memory.antt =====
-- crates/core/src/memory: the guest's memory management. `Map` is the standard library's
-- `BTreeMap`, which both managers keep their areas in.
pub mod Map
pub mod Physical
pub mod AddressSpace
pub mod MemoryProt
pub mod MemoryMapFlags
pub mod Vma
pub mod Virtual
mod Tests
