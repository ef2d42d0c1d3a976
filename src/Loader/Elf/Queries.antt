-- ===== src/Loader/Elf/Queries.antt =====
-- The queries on a parsed file, of crates/core/src/loader/elf.rs.
use anotherps4_emulator.Common.{
  ℕ, ◌+◌, ◌-◌, ◌*◌, List, [], ◌∷◌, Option, none, some, Bool, true, false, ◌&&◌, ◌||◌, not, leb,
  ◌==◌, length, take, drop, if◌then◌else◌,
}
use anotherps4_emulator.Common.Int.{ℤ, int_eq}
use anotherps4_emulator.Common.Reader.{Bytes}
use anotherps4_emulator.Common.Utf8.{from_utf8_lossy}
use anotherps4_emulator.Types.{add64}
use anotherps4_emulator.Loader.Elf.Types.{
  ProgramHeader, Elf, is_load, is_tls, is_proc_param, is_eh_frame, sce_dynamic,
}
use anotherps4_emulator.Loader.Elf.Tables.{DynamicEntry}
use anotherps4_emulator.Loader.Elf.{
  resolve_file_offset_internal, dt_needed, dt_sce_import_lib, dt_sce_strtab, dt_sce_strsz,
}

-- `Elf::elf_offset`
unfoldable pub elf_offset : Elf → ℕ
elf_offset self =
    if self.is_self
    then elim self.self_header [ none ↦ 0 | some sh ↦ 32 + sh.segment_count * 32 ]
    else 0

unfoldable pub is_shared_lib : Elf → Bool
is_shared_lib self = elim self.header.elf_type [ sce_dynamic ↦ true | _ ↦ false ]

abbrev pub filter_headers : (ProgramHeader → Bool) → List ProgramHeader → List ProgramHeader
filter_headers kind [] = []
filter_headers kind (ph ∷ phs) =
    if kind ph then ph ∷ filter_headers kind phs else filter_headers kind phs

unfoldable pub load_segments : Elf → List ProgramHeader
load_segments self = filter_headers is_load self.program_headers

unfoldable pub resolve_file_offset : Elf → ℕ → ProgramHeader → ℕ
resolve_file_offset self phdr_idx phdr =
    resolve_file_offset_internal self.is_self self.self_segments self.program_headers phdr_idx phdr
      (elf_offset self)

abbrev pub find_header : (ProgramHeader → Bool) → List ProgramHeader → Option ProgramHeader
find_header kind [] = none
find_header kind (ph ∷ phs) = if kind ph then some ph else find_header kind phs

unfoldable pub tls_header : Elf → Option ProgramHeader
tls_header self = find_header is_tls self.program_headers

unfoldable pub proc_param_header : Elf → Option ProgramHeader
proc_param_header self = find_header is_proc_param self.program_headers

unfoldable pub eh_frame_header : Elf → Option ProgramHeader
eh_frame_header self = find_header is_eh_frame self.program_headers

abbrev pub find_entry : ℤ → List DynamicEntry → Option ℕ
find_entry tag [] = none
find_entry tag (e ∷ entries) = if int_eq e.tag tag then some e.value else find_entry tag entries

unfoldable pub dynamic_value : Elf → ℤ → Option ℕ
dynamic_value self tag = find_entry tag self.dynamic_entries

-- `segment_data`; `none` is the panic of a slice whose start lies behind its end.
unfoldable pub segment_data : Elf → ProgramHeader → Option Bytes
segment_data self ph =
    let offset = add64 (elf_offset self) ph.offset in
    let end = add64 offset ph.filesz in
    if leb end (length self.raw_data)
    then if leb offset end then some (take (end - offset) (drop offset self.raw_data)) else none
    else some []

-- The bytes up to the first 0.
unfoldable pub until_nul : Bytes → Bytes
until_nul [] = []
until_nul (b ∷ bytes) = if b == 0 then [] else b ∷ until_nul bytes

abbrev pub string_at : Bytes → ℕ → ℕ → ℕ → Bytes
string_at dynlib_data strtab_off strtab_sz offset =
    if leb strtab_sz offset
    then []
    else let start = add64 strtab_off offset in
      if leb (length dynlib_data) start
      then []
      else from_utf8_lossy (until_nul (drop start dynlib_data))

unfoldable pub get_dynamic_string : Elf → ℕ → Bytes
get_dynamic_string self offset = elim (dynamic_value self dt_sce_strtab) [
  | none ↦ []
  | some strtab_off ↦ elim (dynamic_value self dt_sce_strsz) [
    | none ↦ []
    | some strtab_sz ↦ string_at self.dynlib_data strtab_off strtab_sz offset
  ]
]

-- The loop of `needed_modules` over the dynamic entries.
abbrev pub needed_from : (ℕ → Bytes) → List DynamicEntry → List Bytes
needed_from string [] = []
needed_from string (e ∷ entries) =
    if (int_eq e.tag dt_needed || int_eq e.tag dt_sce_import_lib)
      && not (length (string e.value) == 0)
    then string e.value ∷ needed_from string entries
    else needed_from string entries

unfoldable pub needed_modules : Elf → List Bytes
needed_modules self = needed_from (get_dynamic_string self) self.dynamic_entries
