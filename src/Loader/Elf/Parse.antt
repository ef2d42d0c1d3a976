-- ===== src/Loader/Elf/Parse.antt =====
-- What `Elf::parse` (crates/core/src/loader/elf.rs) makes of a file: what it refuses, and that it reads back a file
-- that was written.
use anotherps4_emulator.Common.{
  ℕ, zero, suc, ◌-◌, ◌≡◌, List, true, ◌==◌, length, drop, arith, inl, inr,
}
use anotherps4_emulator.Common.Result.{ok, Result-cases}
use anotherps4_emulator.Common.Reader.{Bytes, ByteOrder}
use anotherps4_emulator.Types.{add64}
use anotherps4_emulator.Loader.Elf.{parse, is_some, read_self, dynlib_of}
use anotherps4_emulator.Loader.Elf.Types.{Elf, ElfHeader, ElfIdent, ProgramHeader, elf_magic}
use anotherps4_emulator.Loader.Elf.Read.{
  read_ident, read_elf_header, read_program_headers, read_program_header, bytes_eq,
}

-- What every header that was read has.
pub record IsSupported (h : ElfHeader) : Type 0 where
  pub magic : bytes_eq h.ident.magic elf_magic ≡ true
  pub class_byte : (h.ident.class_byte == 2) ≡ true
  pub data_byte : (h.ident.data_byte == 1) ≡ true
  pub machine : (h.machine == 62) ≡ true

module _ (order : ByteOrder) where
  read_ident_supported :
      (bytes rest : Bytes) (i : ElfIdent)
      → read_ident order bytes ≡ ok (i, rest)
      → (bytes_eq i.magic elf_magic ≡ true)
        × ((i.class_byte == 2) ≡ true)
        × ((i.data_byte == 1) ≡ true)
  unfolding read_ident
  read_ident_supported bytes rest i h = ground arith

  read_elf_header-IsSupported :
      (bytes rest : Bytes) (h : ElfHeader)
      → read_elf_header order bytes ≡ ok (h, rest)
      → IsSupported h
  unfolding read_elf_header
  read_elf_header-IsSupported bytes rest h e = elim (Result-cases (read_ident order bytes)) [
    | inl ((ident, bytes'), q) ↦ let s = read_ident_supported bytes bytes' ident q in ground arith
    | inr (_, q) ↦ absurd (ground arith)
  ]

  length-read_program_headers :
      (count : ℕ) (bytes rest : Bytes) (phs : List ProgramHeader)
      → read_program_headers order count bytes ≡ ok (phs, rest)
      → length phs ≡ count
  unfolding read_program_headers
  length-read_program_headers zero bytes rest phs e = ground arith
  length-read_program_headers (suc count) bytes rest phs e =
      elim (Result-cases (read_program_header order bytes)) [
        | inl ((ph, bytes'), q) ↦ elim (Result-cases (read_program_headers order count bytes')) [
          | inl ((phs', rest'), q') ↦
              let n = length-read_program_headers count bytes' rest' phs' q' in ground arith
          | inr (_, q') ↦ absurd (ground arith)
        ]
        | inr (_, q) ↦ absurd (ground arith)
      ]

  -- Whatever the reads are: a file that parse accepts has the magic number of ELF in its header, is of
  -- 64 bits, little-endian and for x86-64, and has as many program headers as the header says.
  pub parse-IsSupported :
      (file : Bytes) (elf : Elf)
      → parse order file ≡ ok elf
      → IsSupported elf.header
        × (length elf.program_headers ≡ elf.header.phnum)
        × (elf.raw_data ≡ file)
  unfolding parse
  parse-IsSupported file elf e = elim (Result-cases (read_self order file)) [
    | inr (_, q) ↦ absurd (ground arith)
    | inl ((sh, segments, rest), q) ↦ elim (Result-cases (read_elf_header order rest)) [
      | inr (_, q') ↦ absurd (ground arith)
      | inl ((header, rest'), q') ↦
          let table : Bytes = drop (add64 (length file - length rest) header.phoff) file in
          let supported = read_elf_header-IsSupported rest rest' header q' in
          elim (Result-cases (read_program_headers order header.phnum table)) [
            | inr (_, q'') ↦ absurd (ground arith)
            | inl ((phs, rest''), q'') ↦
                let n = length-read_program_headers header.phnum table rest'' phs q'' in
                elim (Result-cases
                  (dynlib_of file (is_some sh) segments phs (length file - length rest))) [
                    | inr (_, d) ↦ absurd (ground arith)
                    | inl (dynlib, d) ↦
                        let fields : (elf.header ≡ header)
                            × (elf.program_headers ≡ phs)
                            × (elf.raw_data ≡ file) =
                          ground arith in
                        rw (fields.0, fields.1) (supported, n, fields.2)
                  ]
          ]
    ]
  ]
