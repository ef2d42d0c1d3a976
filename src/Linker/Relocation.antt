-- ===== src/Linker/Relocation.antt =====
-- crates/core/src/linker/relocation.rs, with `ParsedRelocation` of module.rs. The global stub allocator and the
-- bytes of the guest's memory are passed on; the order in which the hash map of the symbols is walked is a parameter.
use anotherps4_emulator.Common.{ℕ, [], ◌∷◌, Option, none, some, Bool, ◌||◌, ◌==◌, if◌then◌else◌}
use anotherps4_emulator.Common.Int.{ℤ}
use anotherps4_emulator.Types.{VAddr, add64}
use anotherps4_emulator.Hle.Bytes.{Bytes, store}
use anotherps4_emulator.Hle.Stubs.{StubAllocator, allocate_stub}
use anotherps4_emulator.Loader.Elf.Tables.{as_u64}
use anotherps4_emulator.Loader.Nids.{before_hash, lookup_known_nid}
use anotherps4_emulator.Loader.Symbols.{Str, Entries, SymbolResolver, resolve}

pub record ParsedRelocation : Type 0 where
  pub offset : ℕ
  pub rel_type : ℕ
  pub addend : ℤ
  pub symbol_name : Str
  pub symbol_binding : ℕ
  pub symbol_type : ℕ
  pub is_jmp_rel : Bool

abbrev pub r_x86_64_64 : ℕ
r_x86_64_64 = 1

abbrev pub r_x86_64_glob_dat : ℕ
r_x86_64_glob_dat = 6

abbrev pub r_x86_64_jump_slot : ℕ
r_x86_64_jump_slot = 7

abbrev pub r_x86_64_relative : ℕ
r_x86_64_relative = 8

abbrev pub r_x86_64_dtpmod64 : ℕ
r_x86_64_dtpmod64 = 16

-- The name of the stub of an unresolved import.
unfoldable pub stub_name : Str → Str
stub_name symbol_name = elim (lookup_known_nid (before_hash symbol_name)) [
  | some known ↦ known
  | none ↦ symbol_name
]

-- The address of a symbol; an unresolved one gets a stub.
unfoldable pub resolve_import :
    (Entries → Entries) → SymbolResolver → Str → Option StubAllocator → VAddr × Option StubAllocator
resolve_import walk hle_symbols [] stubs = (0, stubs)
resolve_import walk hle_symbols (c ∷ s) stubs =
    elim (resolve walk hle_symbols (before_hash (c ∷ s))) [
      | some addr ↦ (addr, stubs)
      | none ↦ elim (resolve walk hle_symbols (c ∷ s)) [
        | some addr ↦ (addr, stubs)
        | none ↦ allocate_stub stubs (stub_name (c ∷ s))
      ]
    ]

unfoldable pub apply_relocation :
    (Entries → Entries)
    → ParsedRelocation
    → VAddr
    → SymbolResolver
    → Option StubAllocator × Bytes
    → Option StubAllocator × Bytes
apply_relocation walk reloc base hle_symbols (stubs, bytes) =
    let target_addr = add64 base reloc.offset in
    let t = reloc.rel_type in
    if t == r_x86_64_relative
    then (stubs, store 8 target_addr (add64 base (as_u64 reloc.addend)) bytes)
    else if t == r_x86_64_64 || t == r_x86_64_glob_dat || t == r_x86_64_jump_slot
    then (let (resolved_addr, stubs') = resolve_import walk hle_symbols reloc.symbol_name stubs in
        (stubs', store 8 target_addr (add64 resolved_addr (as_u64 reloc.addend)) bytes))
    else if t == r_x86_64_dtpmod64
    then (stubs, store 8 target_addr 1 bytes)
    else (stubs, bytes)
