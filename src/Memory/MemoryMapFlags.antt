-- ===== src/Memory/MemoryMapFlags.antt =====
-- `MemoryMapFlags` of crates/core/src/memory/virtual_memory.rs: the bits of the mapping flags.
use anotherps4_emulator.Common.{ℕ}

abbrev pub shared : ℕ
shared = 1

abbrev pub private_map : ℕ
private_map = 2

abbrev pub fixed : ℕ
fixed = 0x10

abbrev pub no_overwrite : ℕ
no_overwrite = 0x80

abbrev pub void : ℕ
void = 0x100

abbrev pub stack : ℕ
stack = 0x400

abbrev pub no_sync : ℕ
no_sync = 0x800

abbrev pub anonymous : ℕ
anonymous = 0x1000

abbrev pub no_core : ℕ
no_core = 0x20000

abbrev pub no_coalesce : ℕ
no_coalesce = 0x400000

abbrev pub all_bits : ℕ
all_bits = 0x421d93
