-- ===== src/Loader/Elf/Written.antt =====
-- `Elf::parse` (crates/core/src/loader/elf.rs) on a file that was written: an ELF header, the program headers
-- right behind it, and anything behind those; and on a written dynamic table.
use anotherps4_emulator.Common.{
  ℕ, zero, suc, ◌+◌, ◌-◌, ◌^◌, ◌≤◌, ◌<◌, ◌≡◌, ◌≢◌, refl, ◌∙◌, List, [], ◌∷◌, Option, none, some,
  Bool, true, false, ◌==◌, leb, ltb, length, drop, take, All, arith, Option-cases, Bool-cases, inl,
  inr,
}
use anotherps4_emulator.Common.Result.{ok}
use anotherps4_emulator.Common.Reader.{Bytes, ByteOrder, IsLittleEndian, read_le}
use anotherps4_emulator.Common.Reader.RoundTrip.{put_le, read_le-put_le, drop-put_le, drop-bytes}
use anotherps4_emulator.Types.{add64}
use anotherps4_emulator.Loader.Elf.{
  parse, read_self, dynlib_of, dynlib_slice, dynamic_of, last_of, resolve_file_offset_internal,
  read_dynamic,
}
use anotherps4_emulator.Loader.Elf.Types.{Elf, ElfHeader, ProgramHeader, io, is_dynlib_data}
use anotherps4_emulator.Loader.Elf.Tables.{DynamicEntry, as_i64, as_u64}
use anotherps4_emulator.Loader.Elf.Read.{read_program_headers}
use anotherps4_emulator.Loader.Elf.RoundTrip.{
  put_program_headers, put_elf_header, put_ident, FitsHeader, FitsProgramHeader,
  read_program_headers-put, read_elf_header-put,
}

-- The header takes 64 bytes.
drop-put_elf_header :
    (h : ElfHeader) (rest : Bytes) → FitsHeader h → drop 64 (put_elf_header h rest) ≡ rest
unfolding put_elf_header put_ident
drop-put_elf_header h rest f =
    let four : length h.ident.magic ≡ 4 = rw (f.ident.magic) refl in
    drop-bytes 64 60 h.ident.magic _ (omega (arith, four))
    ∙ drop-put_le 60 1 59 h.ident.class_byte _ refl
    ∙ drop-put_le 59 1 58 h.ident.data_byte _ refl
    ∙ drop-put_le 58 1 57 h.ident.version _ refl
    ∙ drop-put_le 57 1 56 h.ident.os_abi _ refl
    ∙ drop-put_le 56 1 55 h.ident.abi_version _ refl
    ∙ drop-bytes 55 48 h.ident.padding _ (omega (arith, f.ident.padding))
    ∙ drop-put_le 48 2 46 _ _ refl
    ∙ drop-put_le 46 2 44 h.machine _ refl
    ∙ drop-put_le 44 4 40 h.version _ refl
    ∙ drop-put_le 40 8 32 h.entry _ refl
    ∙ drop-put_le 32 8 24 h.phoff _ refl
    ∙ drop-put_le 24 8 16 h.shoff _ refl
    ∙ drop-put_le 16 4 12 h.flags _ refl
    ∙ drop-put_le 12 2 10 h.ehsize _ refl
    ∙ drop-put_le 10 2 8 h.phentsize _ refl
    ∙ drop-put_le 8 2 6 h.phnum _ refl
    ∙ drop-put_le 6 2 4 h.shentsize _ refl
    ∙ drop-put_le 4 2 2 h.shnum _ refl
    ∙ drop-put_le 2 2 0 h.shstrndx rest refl

-- The file does not start with the magic number of a SELF.
read_self-put_elf_header :
    (order : ByteOrder)
    → IsLittleEndian order
    → (h : ElfHeader) (rest : Bytes) → FitsHeader h
    → read_self order (put_elf_header h rest) ≡ ok (none, [], put_elf_header h rest)
unfolding read_self read_le put_elf_header put_ident
read_self-put_elf_header order le h rest f = rw (f.ident.magic, le.reads 4, read_self, read_le) refl

-- The range of a header does not pass 2 ^ 64.
abbrev pub Bounded : ProgramHeader → Type 0
Bounded ph = ph.offset + ph.filesz < 2 ^ 64

last_of-Bounded :
    (kind : ProgramHeader → Bool) (phs : List ProgramHeader) (idx : ℕ)
    (found : Option (ℕ × ProgramHeader)) (i : ℕ) (ph : ProgramHeader)
    → All Bounded phs
    → (found ≡ some (i, ph) → Bounded ph)
    → last_of kind phs idx found ≡ some (i, ph)
    → Bounded ph
last_of-Bounded kind [] idx found i ph a b e = b e
last_of-Bounded kind (p ∷ phs) idx found i ph a b e = elim (Bool-cases (kind p)) [
  | inl yes_kind ↦
      last_of-Bounded kind phs (idx + 1) (some (idx, p)) i ph a.1
        (λ s. let same : p ≡ ph = ground arith in rw (← same) a.0) (rw yes_kind at e)
  | inr not_kind ↦ last_of-Bounded kind phs (idx + 1) found i ph a.1 b (rw not_kind at e)
]

-- A slice whose end does not wrap is always taken.
dynlib_slice-ok :
    (bytes : Bytes) (start size : ℕ)
    → start + size < 2 ^ 64
    → (part : Bytes) × (dynlib_slice bytes start size ≡ ok part)
unfolding dynlib_slice
dynlib_slice-ok bytes start size b =
    let end : add64 start size ≡ start + size = ground (arith, add64) in
    let ordered : leb start (start + size) ≡ true = ground arith in
    rw (end, dynlib_slice)
      elim (Bool-cases (leb (start + size) (length bytes))) [
        | inl fits ↦ (take (start + size - start) (drop start bytes), rw (fits, ordered) refl)
        | inr past ↦ elim (Bool-cases (ltb start (length bytes))) [
          | inl within ↦ (drop start bytes, rw (past, within) refl)
          | inr behind ↦ ([], rw (past, behind) refl)
        ]
      ]

dynlib_of-ok :
    (bytes : Bytes) (phs : List ProgramHeader)
    → All Bounded phs
    → (part : Bytes) × (dynlib_of bytes false [] phs 0 ≡ ok part)
unfolding resolve_file_offset_internal
dynlib_of-ok bytes phs a = elim (Option-cases (last_of is_dynlib_data phs 0 none)) [
  | inr ((i, ph), e) ↦
      let bound = last_of-Bounded is_dynlib_data phs 0 none i ph a (λ n. absurd (ground arith)) e in
      let (part, taken) = dynlib_slice-ok bytes ph.offset ph.filesz bound in
      (part, rw (e, dynlib_of, resolve_file_offset_internal) taken)
  | inl e ↦ ([], rw (e, dynlib_of) refl)
]

-- A written file.
abbrev pub put_elf : ElfHeader → List ProgramHeader → Bytes → Bytes
put_elf h phs rest = put_elf_header h (put_program_headers phs rest)

-- Where the reads are little-endian: a file of an ELF header for x86-64 whose fields fit their widths,
-- with the program headers right behind it at offset 64 and any bytes behind those, is parsed, and the
-- header, the program headers and the bytes are the ones that were written, when no range of a header
-- passes 2 ^ 64.
pub parse-put_elf :
    (order : ByteOrder) (h : ElfHeader) (phs : List ProgramHeader) (rest : Bytes)
    → IsLittleEndian order
    → FitsHeader h
    → h.phoff ≡ 64
    → h.phnum ≡ length phs
    → All FitsProgramHeader phs
    → All Bounded phs
    → (elf : Elf) × (parse order (put_elf h phs rest) ≡ ok elf)
      × (elf.header ≡ h)
      × (elf.program_headers ≡ phs)
      × (elf.is_self ≡ false)
      × (elf.raw_data ≡ put_elf h phs rest)
unfolding parse
parse-put_elf order h phs rest le f off count fs bs =
    let table : Bytes = put_program_headers phs rest in
    let file : Bytes = put_elf_header h table in
    let start : add64 (length file - length file) h.phoff ≡ 64 = ground (arith, off) in
    let (part, taken) = dynlib_of-ok file phs bs in
    let headers : read_program_headers order h.phnum table ≡ ok (phs, rest) =
      rw (count) (read_program_headers-put order le phs rest fs) in
    let nothing : length file - length file ≡ 0 = omega arith in
    let elf : Elf = record {
      is_self = false;
      self_header = none;
      self_segments = [];
      header = h;
      program_headers = phs;
      dynamic_entries = dynamic_of order file false [] phs 0;
      dynlib_data = part;
      raw_data = file;
    } in
    (
      elf,
      rw
          (
            read_self-put_elf_header order le h table f,
            read_elf_header-put order le h table f,
            start,
            drop-put_elf_header h table f,
            headers,
            nothing,
            taken,
          )
          refl,
      refl,
      refl,
      refl,
      refl,
    )

-- A dynamic entry in its 16 bytes.
unfoldable pub put_dynamic : List DynamicEntry → Bytes → Bytes
put_dynamic [] rest = rest
put_dynamic (e ∷ entries) rest =
    put_le 8 (as_u64 e.tag) (put_le 8 e.value (put_dynamic entries rest))

-- A tag of 64 bits other than 0, and a value of 64 bits.
pub record FitsDynamic (e : DynamicEntry) : Type 0 where
  pub named : as_i64 (as_u64 e.tag) ≡ e.tag
  pub tag : as_u64 e.tag < 256 ^ 8
  pub nonzero : as_u64 e.tag ≢ 0
  pub value : e.value < 256 ^ 8

-- Where the reads are little-endian: dynamic entries of 64 bits with tags other than 0, written before
-- an entry with the tag 0, read back as they were written when at least as many entries are asked for.
pub read_dynamic-put :
    (order : ByteOrder) (entries : List DynamicEntry) (count v : ℕ) (rest : Bytes)
    → IsLittleEndian order
    → All FitsDynamic entries
    → length entries ≤ count
    → v < 256 ^ 8
    → read_dynamic order count (put_dynamic entries (put_le 8 0 (put_le 8 v rest))) ≡ entries
unfolding read_dynamic put_dynamic
read_dynamic-put order [] zero v rest le f n small = refl
read_dynamic-put order [] (suc count) v rest le f n small =
    let get = read_le-put_le io order le in
    rw (read_dynamic, get 8 0 (put_le 8 v rest) (omega arith), get 8 v rest small) refl
read_dynamic-put order (e ∷ entries) zero v rest le f n small = absurd (omega arith)
read_dynamic-put order (e ∷ entries) (suc count) v rest le f n small =
    let get = read_le-put_le io order le in
    let more : (as_u64 e.tag == 0) ≡ false = ground (arith, f.0.nonzero) in
    rw
      (
        read_dynamic,
        get 8 (as_u64 e.tag) _ f.0.tag,
        get 8 e.value _ f.0.value,
        more,
        f.0.named,
        read_dynamic-put order entries count v rest le f.1 (omega arith) small,
      )
      refl
