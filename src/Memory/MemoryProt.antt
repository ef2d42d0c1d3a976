-- ===== src/Memory/MemoryProt.antt =====
-- `MemoryProt` of crates/core/src/memory/virtual_memory.rs: the bits of the protection flags.
use anotherps4_emulator.Common.{ℕ}

abbrev pub none_bits : ℕ
none_bits = 0

abbrev pub cpu_read : ℕ
cpu_read = 1

abbrev pub cpu_write : ℕ
cpu_write = 2

abbrev pub cpu_rw : ℕ
cpu_rw = 3

abbrev pub cpu_exec : ℕ
cpu_exec = 4

abbrev pub gpu_read : ℕ
gpu_read = 16

abbrev pub gpu_write : ℕ
gpu_write = 32

abbrev pub gpu_rw : ℕ
gpu_rw = 48

-- The union of all flags, to which `from_bits_truncate` cuts a value down.
abbrev pub all_bits : ℕ
all_bits = 55
