-- ===== src/Loader/Elf.antt =====
-- crates/core/src/loader/elf.rs: the parser of ELF and SELF files, and the queries on a parsed file. A read
-- of byteorder is a parameter; a text is its bytes.
pub mod Types
pub mod Tables
pub mod Read
pub mod RoundTrip
pub mod SelfFile
pub mod Queries
pub mod Parse
pub mod Written
mod Tests
use anotherps4_emulator.Common.{
  ℕ, zero, suc, ◌+◌, ◌-◌, ◌*◌, ◌/◌, List, [], ◌∷◌, ◌++◌, Option, none, some, Bool, true, false,
  ◌&&◌, ◌||◌, not, ltb, leb, ◌==◌, length, get_elem?, take, drop, if◌then◌else◌,
}
use anotherps4_emulator.Common.Int.{ℤ, pos, int_eq}
use anotherps4_emulator.Common.Result.{Result, ok, err, bind}
use anotherps4_emulator.Common.Reader.{Bytes, ByteOrder, read_le}
use anotherps4_emulator.Common.Utf8.{from_utf8_lossy}
use anotherps4_emulator.Types.{VAddr, add64, sub64}
use anotherps4_emulator.Loader.Elf.Types.{
  SelfHeader, SelfSegmentHeader, ElfHeader, ProgramHeader, Elf, ElfError, self_magic, is_blocked,
  get_id, is_load, is_dynamic, is_dynlib_data, is_tls, is_proc_param, is_eh_frame, io, panicked,
  sce_dynamic,
}
use anotherps4_emulator.Loader.Elf.Tables.{DynamicEntry, as_i64}
use anotherps4_emulator.Loader.Elf.Read.{
  u32, u64, read_self_header, read_self_segments, read_elf_header, read_program_headers,
}

-- The tags that the code looks up.
abbrev pub dt_needed : ℤ
dt_needed = pos 1

abbrev pub dt_init : ℤ
dt_init = pos 0xc

abbrev pub dt_init_array : ℤ
dt_init_array = pos 0x19

abbrev pub dt_init_arraysz : ℤ
dt_init_arraysz = pos 0x1b

abbrev pub dt_sce_import_lib : ℤ
dt_sce_import_lib = pos 0x6100_0015

abbrev pub dt_sce_jmprel : ℤ
dt_sce_jmprel = pos 0x6100_0029

abbrev pub dt_sce_pltrelsz : ℤ
dt_sce_pltrelsz = pos 0x6100_002d

abbrev pub dt_sce_rela : ℤ
dt_sce_rela = pos 0x6100_002f

abbrev pub dt_sce_relasz : ℤ
dt_sce_relasz = pos 0x6100_0031

abbrev pub dt_sce_strtab : ℤ
dt_sce_strtab = pos 0x6100_0035

abbrev pub dt_sce_strsz : ℤ
dt_sce_strsz = pos 0x6100_0037

abbrev pub dt_sce_symtab : ℤ
dt_sce_symtab = pos 0x6100_0039

abbrev pub dt_sce_symtabsz : ℤ
dt_sce_symtabsz = pos 0x6100_003f

-- Case 1 of `resolve_file_offset_internal`: a blocked segment with the header's index.
unfoldable pub direct_match : List SelfSegmentHeader → ℕ → Option ℕ
direct_match [] phdr_idx = none
direct_match (seg ∷ segs) phdr_idx =
    if is_blocked seg && (get_id seg == phdr_idx)
    then some seg.file_offset
    else direct_match segs phdr_idx

-- Case 2: a blocked segment whose own header's range holds the offset.
unfoldable pub containing_segment : List SelfSegmentHeader → List ProgramHeader → ℕ → Option ℕ
containing_segment [] phs target_offset = none
containing_segment (seg ∷ segs) phs target_offset =
    let rest = containing_segment segs phs target_offset in
    if not (is_blocked seg) then rest else elim (get_elem? phs (get_id seg)) [
      | none ↦ rest
      | some parent ↦
          if leb parent.offset target_offset
            && ltb target_offset (add64 parent.offset parent.filesz)
          then some (add64 seg.file_offset (target_offset - parent.offset))
          else rest
    ]

unfoldable pub resolve_file_offset_internal :
    Bool → List SelfSegmentHeader → List ProgramHeader → ℕ → ProgramHeader → ℕ → ℕ
resolve_file_offset_internal is_self self_segments program_headers phdr_idx phdr elf_offset =
    if not is_self then phdr.offset else elim (direct_match self_segments phdr_idx) [
      | some offset ↦ offset
      | none ↦ elim (containing_segment self_segments program_headers phdr.offset) [
        | some offset ↦ offset
        | none ↦ add64 elf_offset phdr.offset
      ]
    ]

-- The last header of a kind, with its index.
abbrev pub last_of :
    (ProgramHeader → Bool)
    → List ProgramHeader
    → ℕ
    → Option (ℕ × ProgramHeader)
    → Option (ℕ × ProgramHeader)
last_of kind [] idx found = found
last_of kind (ph ∷ phs) idx found =
    last_of kind phs (idx + 1) (if kind ph then some (idx, ph) else found)

-- `&data[start..end]` for `end = start + size` on `usize`; the loader keeps what is there of it.
unfoldable pub dynlib_slice : Bytes → ℕ → ℕ → Result ElfError Bytes
dynlib_slice data_bytes start size =
    let end = add64 start size in
    if leb end (length data_bytes)
    then if leb start end then ok (take (end - start) (drop start data_bytes)) else err panicked
    else if ltb start (length data_bytes)
    then ok (drop start data_bytes)
    else ok []

abbrev pub is_some : {A : Type 0} → Option A → Bool
is_some none = false
is_some (some _) = true

abbrev pub dynlib_of :
    Bytes → Bool → List SelfSegmentHeader → List ProgramHeader → ℕ → Result ElfError Bytes
dynlib_of data_bytes is_self segments phs elf_offset = elim (last_of is_dynlib_data phs 0 none) [
  | none ↦ ok []
  | some (idx, ph) ↦
      dynlib_slice data_bytes (resolve_file_offset_internal is_self segments phs idx ph elf_offset)
        ph.filesz
]

module _ (order : ByteOrder) where
  -- The loop over the dynamic entries: it ends at the tag 0 and at the end of the file.
  unfoldable pub read_dynamic : ℕ → Bytes → List DynamicEntry
  read_dynamic zero bytes = []
  read_dynamic (suc count) bytes = elim (u64 order bytes) [
    | err _ ↦ []
    | ok (tag, bytes') ↦ elim (u64 order bytes') [
      | err _ ↦ []
      | ok (value, rest) ↦
          let later = read_dynamic count rest in
          if tag == 0 then [] else record { tag = as_i64 tag; value = value } ∷ later
    ]
  ]

  -- The SELF header, the segments and the bytes behind them, or the bytes themselves.
  unfoldable pub read_self :
      Bytes → Result ElfError (Option SelfHeader × List SelfSegmentHeader × Bytes)
  read_self data_bytes = bind (u32 order data_bytes) λ (first_u32, _).
      if first_u32 == self_magic
      then (bind (read_self_header order data_bytes) λ (sh, rest).
          bind (read_self_segments order sh.segment_count rest)
            λ (segments, rest'). ok (some sh, segments, rest'))
      else ok (none, [], data_bytes)

  abbrev pub dynamic_of :
      Bytes → Bool → List SelfSegmentHeader → List ProgramHeader → ℕ → List DynamicEntry
  dynamic_of data_bytes is_self segments phs elf_offset = elim (last_of is_dynamic phs 0 none) [
    | none ↦ []
    | some (idx, ph) ↦
        let real_offset = resolve_file_offset_internal is_self segments phs idx ph elf_offset in
        if ltb real_offset (length data_bytes)
        then read_dynamic (ph.filesz / 16) (drop real_offset data_bytes)
        else []
  ]

  -- `Elf::parse`
  unfoldable pub parse : Bytes → Result ElfError Elf
  parse data_bytes = bind (read_self data_bytes) λ (self_header, self_segments, rest).
      let is_self = is_some self_header in
      let elf_offset = length data_bytes - length rest in
      bind (read_elf_header order rest) λ (header, _).
        bind
          (read_program_headers order header.phnum
            (drop (add64 elf_offset header.phoff) data_bytes))
          λ (program_headers, _).
            bind (dynlib_of data_bytes is_self self_segments program_headers elf_offset)
              λ dynlib_data. ok (record {
                is_self = is_self;
                self_header = self_header;
                self_segments = self_segments;
                header = header;
                program_headers = program_headers;
                dynamic_entries =
                    dynamic_of data_bytes is_self self_segments program_headers elf_offset;
                dynlib_data = dynlib_data;
                raw_data = data_bytes;
              })
