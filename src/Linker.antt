-- ===== src/Linker.antt =====
-- crates/core/src/linker: loading modules into the guest's memory, and linking them.
pub mod Relocation
pub mod Module
pub mod Load
pub mod Traps
pub mod Modules
pub mod Start
pub mod Tls
pub mod Relocated
pub mod Patched
pub mod Linked
pub mod Names
pub mod Loaded
pub mod Terminates
pub mod Inside
pub mod InitArray
pub mod Imports
mod Tests
mod StartTests
mod ImportTests
