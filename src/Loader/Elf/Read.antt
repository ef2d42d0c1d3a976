-- ===== src/Loader/Elf/Read.antt =====
-- The reading helpers of crates/core/src/loader/elf.rs, and `from_bytes` of symbols and relocations.
use anotherps4_emulator.Common.{
  ℕ, zero, suc, List, [], ◌∷◌, Option, none, some, Bool, true, false, ◌&&◌, ◌==◌, ltb, length,
  bit_and, if◌then◌else◌,
}
use anotherps4_emulator.Common.Result.{Result, ok, err}
use anotherps4_emulator.Common.Reader.{
  Bytes, Reader, ByteOrder, read_le, read_exact, ◌>>=◌, ◌>>◌, guard, pure, run,
}
use anotherps4_emulator.Loader.Elf.Types.{
  SelfHeader, SelfSegmentHeader, ElfIdent, ElfHeader, ProgramHeader, ElfError, elf_magic,
  elf_type_of, program_type_of, program_flags_bits, io, not_elf, not_64_bit, not_little_endian,
  not_x86_64,
}
use anotherps4_emulator.Loader.Elf.Tables.{ElfSymbol, ElfRelocation, as_i64}

abbrev pub bytes_eq : Bytes → Bytes → Bool
bytes_eq [] [] = true
bytes_eq [] (_ ∷ _) = false
bytes_eq (_ ∷ _) [] = false
bytes_eq (x ∷ xs) (y ∷ ys) = (x == y) && bytes_eq xs ys

module _ (order : ByteOrder) where
  abbrev pub u8 : Reader ElfError ℕ
  u8 = read_le order io 1

  abbrev pub u16 : Reader ElfError ℕ
  u16 = read_le order io 2

  abbrev pub u32 : Reader ElfError ℕ
  u32 = read_le order io 4

  abbrev pub u64 : Reader ElfError ℕ
  u64 = read_le order io 8

  unfoldable pub read_self_header : Reader ElfError SelfHeader
  read_self_header bytes = run bytes do
    magic ← u32
    version ← u8
    mode ← u8
    endian ← u8
    attributes ← u8
    category ← u8
    program_type ← u8
    padding1 ← u16
    header_size ← u16
    meta_size ← u16
    file_size ← u32
    padding2 ← u32
    segment_count ← u16
    unknown_1a ← u16
    padding3 ← u32
    pure (record {
      magic = magic;
      version = version;
      mode = mode;
      endian = endian;
      attributes = attributes;
      category = category;
      program_type = program_type;
      padding1 = padding1;
      header_size = header_size;
      meta_size = meta_size;
      file_size = file_size;
      padding2 = padding2;
      segment_count = segment_count;
      unknown_1a = unknown_1a;
      padding3 = padding3;
    })

  unfoldable pub read_self_segment : Reader ElfError SelfSegmentHeader
  read_self_segment bytes = run bytes do
    flags ← u64
    file_offset ← u64
    file_size ← u64
    memory_size ← u64
    pure (record {
      flags = flags;
      file_offset = file_offset;
      file_size = file_size;
      memory_size = memory_size;
    })

  unfoldable pub read_self_segments : ℕ → Reader ElfError (List SelfSegmentHeader)
  read_self_segments zero bytes = ok ([], bytes)
  read_self_segments (suc count) bytes =
      run bytes do
        segment ← read_self_segment
        segments ← read_self_segments count
        pure (segment ∷ segments)

  unfoldable pub read_ident : Reader ElfError ElfIdent
  read_ident bytes = run bytes do
    magic ← read_exact io 4
    guard (bytes_eq magic elf_magic) not_elf
    class_byte ← u8
    guard (class_byte == 2) (not_64_bit class_byte)
    data_byte ← u8
    guard (data_byte == 1) (not_little_endian data_byte)
    version ← u8
    os_abi ← u8
    abi_version ← u8
    padding ← read_exact io 7
    pure (record {
      magic = magic;
      class_byte = class_byte;
      data_byte = data_byte;
      version = version;
      os_abi = os_abi;
      abi_version = abi_version;
      padding = padding;
    })

  unfoldable pub read_elf_header : Reader ElfError ElfHeader
  read_elf_header bytes = run bytes do
    ident ← read_ident
    elf_type_raw ← u16
    machine ← u16
    guard (machine == 62) (not_x86_64 machine)
    version ← u32
    entry ← u64
    phoff ← u64
    shoff ← u64
    flags ← u32
    ehsize ← u16
    phentsize ← u16
    phnum ← u16
    shentsize ← u16
    shnum ← u16
    shstrndx ← u16
    pure (record {
      ident = ident;
      elf_type = elf_type_of elf_type_raw;
      machine = machine;
      version = version;
      entry = entry;
      phoff = phoff;
      shoff = shoff;
      flags = flags;
      ehsize = ehsize;
      phentsize = phentsize;
      phnum = phnum;
      shentsize = shentsize;
      shnum = shnum;
      shstrndx = shstrndx;
    })

  unfoldable pub read_program_header : Reader ElfError ProgramHeader
  read_program_header bytes = run bytes do
    type_raw ← u32
    flags_raw ← u32
    offset ← u64
    vaddr ← u64
    paddr ← u64
    filesz ← u64
    memsz ← u64
    align ← u64
    pure (record {
      phdr_type = program_type_of type_raw;
      flags = bit_and flags_raw program_flags_bits;
      offset = offset;
      vaddr = vaddr;
      paddr = paddr;
      filesz = filesz;
      memsz = memsz;
      align = align;
    })

  -- The loop over the program headers.
  unfoldable pub read_program_headers : ℕ → Reader ElfError (List ProgramHeader)
  read_program_headers zero bytes = ok ([], bytes)
  read_program_headers (suc count) bytes =
      run bytes do ph ← read_program_header; phs ← read_program_headers count; pure (ph ∷ phs)

  abbrev parsed : {A : Type 0} → Result ElfError (A × Bytes) → Option A
  parsed (ok (a, rest)) = some a
  parsed (err e) = none

  -- `ElfSymbol::from_bytes`; behind the test of the length no read can fail.
  unfoldable pub symbol_from_bytes : Bytes → Option ElfSymbol
  symbol_from_bytes bytes =
      if ltb (length bytes) 24
      then none
      else parsed (
          run bytes do
            name_offset ← u32
            info ← u8
            other ← u8
            shndx ← u16
            value ← u64
            size ← u64
            pure (record {
              name_offset = name_offset;
              info = info;
              other = other;
              shndx = shndx;
              value = value;
              size = size;
            }))

  -- `ElfRelocation::from_bytes`
  unfoldable pub relocation_from_bytes : Bytes → Option ElfRelocation
  relocation_from_bytes bytes =
      if ltb (length bytes) 24
      then none
      else parsed (
          run bytes do
            offset ← u64
            info ← u64
            addend ← u64
            pure (record { offset = offset; info = info; addend = as_i64 addend }))
