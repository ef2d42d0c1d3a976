-- ===== src/Linker/Module.antt =====
-- crates/core/src/linker/module.rs: an ELF file's segments in the guest's memory, and its relocations. The reads of
-- byteorder and the text form of a name are parameters; a panic is an error of its own.
use anotherps4_emulator.Common.{
  ℕ, zero, suc, ◌+◌, ◌-◌, ◌*◌, ◌/◌, min, max, List, [], ◌∷◌, ◌++◌, Option, none, some, Bool, true,
  false, ◌&&◌, not, ◌==◌, ltb, leb, length, drop, take, if◌then◌else◌,
}
use anotherps4_emulator.Common.Int.{ℤ}
use anotherps4_emulator.Common.Result.{Result, ok, err, bind}
use anotherps4_emulator.Common.Reader.{ByteOrder}
use anotherps4_emulator.Common.Utf8.{from_utf8_lossy}
use anotherps4_emulator.Types.{VAddr, add64, sub64}
use anotherps4_emulator.Memory.Virtual.{MemoryManager}
use anotherps4_emulator.Hle.Bytes
use anotherps4_emulator.Hle.Bytes.{copy}
use anotherps4_emulator.Loader.Symbols.{Str}
use anotherps4_emulator.Loader.Elf.{
  dt_sce_jmprel, dt_sce_pltrelsz, dt_sce_rela, dt_sce_relasz, dt_sce_strtab, dt_sce_strsz,
  dt_sce_symtab, dt_sce_symtabsz,
}
use anotherps4_emulator.Loader.Elf.Queries.{dynamic_value, resolve_file_offset, until_nul}
use anotherps4_emulator.Loader.Elf.Types.{Elf, ElfError, ProgramHeader, is_load}
use anotherps4_emulator.Loader.Elf.Tables.{binding, sym_type, reloc_symbol, rel_type}
use anotherps4_emulator.Loader.Elf.Read.{symbol_from_bytes, relocation_from_bytes}
use anotherps4_emulator.Linker.Relocation.{ParsedRelocation}

-- What `load` can end with; `panicked` is a slice out of its bounds.
pub data LoadError : Type 0 where
  open_failed no_load_segments map_failed panicked : LoadError
  invalid : ElfError → LoadError

pub record Module : Type 0 where
  pub name : Str
  pub elf : Elf
  pub base_virtual_addr : VAddr
  pub aligned_base_size : ℕ
  pub proc_param_addr : VAddr
  pub eh_frame_hdr_addr : VAddr
  pub eh_frame_hdr_size : ℕ
  pub relocations : List ParsedRelocation
  pub tls_index : ℕ
  pub tls_image_addr : VAddr
  pub tls_image_size : ℕ
  pub tls_size : ℕ
  pub tls_align : ℕ
  pub min_addr : ℕ
  pub init_array_addr : ℕ
  pub init_array_size : ℕ
  pub init_addr : ℕ

-- The memory manager, the bytes of the guest's memory, and the highest TLS index.
pub record LoadState : Type 0 where
  pub memory : MemoryManager
  pub bytes : Bytes.Bytes
  pub max_tls_index : ℕ

-- The lowest and the highest address of the segments, from the ones before.
unfoldable pub lowest : List ProgramHeader → ℕ → ℕ
lowest [] min_addr = min_addr
lowest (ph ∷ phs) min_addr = lowest phs (min min_addr ph.vaddr)

unfoldable pub highest : List ProgramHeader → ℕ → ℕ
highest [] max_addr = max_addr
highest (ph ∷ phs) max_addr = highest phs (max max_addr (add64 ph.vaddr ph.memsz))

-- `&data[start..end]` and `&data[start..]`
unfoldable pub slice : List ℕ → ℕ → ℕ → Result LoadError (List ℕ)
slice data_bytes start end =
    if leb start end && leb end (length data_bytes)
    then ok (take (end - start) (drop start data_bytes))
    else err panicked

unfoldable pub slice_from : List ℕ → ℕ → Result LoadError (List ℕ)
slice_from data_bytes start =
    if leb start (length data_bytes) then ok (drop start data_bytes) else err panicked

-- One turn of the loop that copies the segments.
unfoldable pub copy_segment :
    Elf → VAddr → ℕ → ℕ → ProgramHeader → Bytes.Bytes → Result LoadError Bytes.Bytes
copy_segment elf base_virtual_addr min_addr ph_idx ph bytes =
    if not (is_load ph)
    then ok bytes
    else let src_offset = resolve_file_offset elf ph_idx ph in
      if ltb 0 ph.filesz && leb (add64 src_offset ph.filesz) (length elf.raw_data)
      then (bind (slice elf.raw_data src_offset (add64 src_offset ph.filesz))
          λ src. ok (copy src (sub64 (add64 base_virtual_addr ph.vaddr) min_addr) bytes))
      else ok bytes

unfoldable pub copy_segments :
    Elf → VAddr → ℕ → ℕ → List ProgramHeader → Bytes.Bytes → Result LoadError Bytes.Bytes
copy_segments elf base_virtual_addr min_addr ph_idx [] bytes = ok bytes
copy_segments elf base_virtual_addr min_addr ph_idx (ph ∷ phs) bytes =
    bind (copy_segment elf base_virtual_addr min_addr ph_idx ph bytes)
      λ bytes'. copy_segments elf base_virtual_addr min_addr (ph_idx + 1) phs bytes'

-- The closure `get_string` of `parse_relocations`.
unfoldable pub get_string : List ℕ → ℕ → ℕ → ℕ → Result LoadError Str
get_string data_bytes strtab_off strtab_sz offset =
    if leb strtab_sz offset
    then ok []
    else bind (slice_from data_bytes (add64 strtab_off offset))
        λ bytes. ok (from_utf8_lossy (until_nul bytes))

-- Where the tables of symbols and of texts lie.
pub record Tables : Type 0 where
  pub symtab_off : ℕ
  pub symtab_sz : ℕ
  pub strtab_off : ℕ
  pub strtab_sz : ℕ

module _ (order : ByteOrder) where
  -- The name, the binding and the type of the symbol of a relocation.
  unfoldable pub symbol_of : List ℕ → Tables → ℕ → Result LoadError (Str × ℕ × ℕ)
  symbol_of data_bytes tables sym_idx =
      if not (sym_idx == 0) && ltb (sym_idx * 24) tables.symtab_sz
      then (bind (slice_from data_bytes (add64 tables.symtab_off (sym_idx * 24))) λ sym_bytes.
          elim (symbol_from_bytes order sym_bytes) [
            | none ↦ ok ([], 0, 0)
            | some sym ↦
                bind (get_string data_bytes tables.strtab_off tables.strtab_sz sym.name_offset)
                  λ name. ok (name, binding sym, sym_type sym)
          ])
      else ok ([], 0, 0)

  -- The loop over one table from entry `i` on; `left` entries are left.
  unfoldable pub parse_table :
      List ℕ → Tables → ℕ → Bool → ℕ → ℕ → Result LoadError (List ParsedRelocation)
  parse_table data_bytes tables table_off is_jmp_rel zero i = ok []
  parse_table data_bytes tables table_off is_jmp_rel (suc left) i =
      bind (slice_from data_bytes (add64 table_off (i * 24))) λ bytes.
        let later = parse_table data_bytes tables table_off is_jmp_rel left (i + 1) in
        elim (relocation_from_bytes order bytes) [
          | none ↦ later
          | some rel ↦ bind (symbol_of data_bytes tables (reloc_symbol rel)) λ (name, bound, typ).
              bind later λ relocs. ok (
                record {
                  offset = rel.offset;
                  rel_type = rel_type rel;
                  addend = rel.addend;
                  symbol_name = name;
                  symbol_binding = bound;
                  symbol_type = typ;
                  is_jmp_rel = is_jmp_rel;
                }
                ∷ relocs)
        ]

  -- The table at a pair of tags, when both are there.
  unfoldable pub parse_table_at :
      Elf → Tables → ℤ → ℤ → Bool → Result LoadError (List ParsedRelocation)
  parse_table_at elf tables off_tag size_tag is_jmp_rel = elim (dynamic_value elf off_tag) [
    | none ↦ ok []
    | some off ↦ elim (dynamic_value elf size_tag) [
      | none ↦ ok []
      | some size ↦ parse_table elf.dynlib_data tables off is_jmp_rel (size / 24) 0
    ]
  ]

  abbrev pub tables_of : Elf → Option Tables
  tables_of elf = elim (dynamic_value elf dt_sce_symtab) [
    | none ↦ none
    | some symtab_off ↦ elim (dynamic_value elf dt_sce_symtabsz) [
      | none ↦ none
      | some symtab_sz ↦ elim (dynamic_value elf dt_sce_strtab) [
        | none ↦ none
        | some strtab_off ↦ elim (dynamic_value elf dt_sce_strsz) [
          | none ↦ none
          | some strtab_sz ↦ some (record {
            symtab_off = symtab_off;
            symtab_sz = symtab_sz;
            strtab_off = strtab_off;
            strtab_sz = strtab_sz;
          })
        ]
      ]
    ]
  ]

  unfoldable pub parse_relocations : Elf → Result LoadError (List ParsedRelocation)
  parse_relocations elf = elim (tables_of elf) [
    | none ↦ ok []
    | some tables ↦ bind (parse_table_at elf tables dt_sce_rela dt_sce_relasz false) λ rela.
        bind (parse_table_at elf tables dt_sce_jmprel dt_sce_pltrelsz true)
          λ jmp_rel. ok (rela ++ jmp_rel)
  ]
