-- ===== src/Loader.antt =====
-- crates/core/src/loader: what is known of loaded modules.
pub mod Symbols
pub mod Nids
pub mod Elf
