-- ===== src/Loader/Elf/Tables.antt =====
-- The entries of the tables in an ELF file, of crates/core/src/loader/elf.rs: dynamic entries, symbols and
-- relocations.
use anotherps4_emulator.Common.{ℕ, ◌-◌, ◌/◌, ◌%◌, ◌^◌, ltb, bit_and, if◌then◌else◌}
use anotherps4_emulator.Common.Int.{ℤ, pos, negsuc}

pub record DynamicEntry : Type 0 where
  pub tag : ℤ
  pub value : ℕ

-- The cast of a 64-bit pattern to `i64`, as `read_i64` makes it, and the cast back, `as u64`.
abbrev pub as_i64 : ℕ → ℤ
as_i64 v = if ltb v (2 ^ 63) then pos v else negsuc (2 ^ 64 - 1 - v)

abbrev pub as_u64 : ℤ → ℕ
as_u64 (pos n) = n
as_u64 (negsuc n) = 2 ^ 64 - 1 - n

pub record ElfSymbol : Type 0 where
  pub name_offset : ℕ
  pub info : ℕ
  pub other : ℕ
  pub shndx : ℕ
  pub value : ℕ
  pub size : ℕ

abbrev pub binding : ElfSymbol → ℕ
binding self = self.info / 2 ^ 4

abbrev pub sym_type : ElfSymbol → ℕ
sym_type self = bit_and self.info 0xf

abbrev pub visibility : ElfSymbol → ℕ
visibility self = bit_and self.other 3

pub record ElfRelocation : Type 0 where
  pub offset : ℕ
  pub info : ℕ
  pub addend : ℤ

-- `symbol` and `rel_type` of a relocation.
abbrev pub reloc_symbol : ElfRelocation → ℕ
reloc_symbol self = self.info / 2 ^ 32 % 2 ^ 32

abbrev pub rel_type : ElfRelocation → ℕ
rel_type self = bit_and self.info 0xffff_ffff % 2 ^ 32
