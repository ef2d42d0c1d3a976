-- ===== src/Linker/Relocated.antt =====
-- What relocations leave in memory (crates/core/src/linker/relocation.rs and mod.rs): the value at the target, and
-- all other bytes as they were.
use anotherps4_emulator.Common.{
  ℕ, ◌<◌, ◌^◌, ◌≡◌, refl, ap, ◌∙◌, inl, inr, List, [], ◌∷◌, Option, none, some, Bool, ◌||◌, ◌==◌,
  All, arith, Bool-cases, if◌then◌else◌,
}
use anotherps4_emulator.Types.{VAddr, add64}
use anotherps4_emulator.Hle.Bytes
use anotherps4_emulator.Hle.Bytes.{store, fetch}
use anotherps4_emulator.Hle.Bytes.Words.{Outside, store-Outside, fetch-store}
use anotherps4_emulator.Hle.Stubs.{StubAllocator}
use anotherps4_emulator.Loader.Elf.Tables.{as_u64}
use anotherps4_emulator.Loader.Symbols.{Entries, SymbolResolver}
use anotherps4_emulator.Linker.Relocation.{
  ParsedRelocation, apply_relocation, resolve_import, r_x86_64_64, r_x86_64_glob_dat,
  r_x86_64_jump_slot, r_x86_64_relative, r_x86_64_dtpmod64,
}
use anotherps4_emulator.Linker.Module.{Module}
use anotherps4_emulator.Linker.Modules.{Linker}
use anotherps4_emulator.Linker.Start.{relocate_module, relocate_modules, relocate_all}

-- The relocations that name a symbol.
abbrev pub is_import : ℕ → Bool
is_import t = t == r_x86_64_64 || t == r_x86_64_glob_dat || t == r_x86_64_jump_slot

-- The value that a relocation asks for, by its type.
unfoldable pub value_of :
    (Entries → Entries)
    → ParsedRelocation
    → VAddr
    → SymbolResolver
    → Option StubAllocator
    → Option ℕ
value_of walk reloc base hle_symbols stubs =
    if reloc.rel_type == r_x86_64_relative
    then some (add64 base (as_u64 reloc.addend))
    else if is_import reloc.rel_type
    then some
        (add64 (resolve_import walk hle_symbols reloc.symbol_name stubs).0 (as_u64 reloc.addend))
    else if reloc.rel_type == r_x86_64_dtpmod64
    then some 1
    else none

-- The bytes with a value, if there is one, at an address.
abbrev pub stored : VAddr → Option ℕ → Bytes.Bytes → Bytes.Bytes
stored addr none bytes = bytes
stored addr (some value) bytes = store 8 addr value bytes

stored-Outside :
    (addr : VAddr) (value : Option ℕ) (bytes : Bytes.Bytes) (at : ℕ)
    → Outside at addr 8
    → stored addr value bytes at ≡ bytes at
stored-Outside addr none bytes at h = refl
stored-Outside addr (some value) bytes at h = store-Outside 8 addr value bytes at h

-- No relocation of a module writes at an address.
abbrev pub Untouched : ℕ → Module → Type 0
Untouched at m =
    All (λ (r : ParsedRelocation). Outside at (add64 m.base_virtual_addr r.offset) 8) m.relocations

module _ (walk : Entries → Entries) where
  -- A relocation stores its value.
  apply_relocation-value_of :
      (reloc : ParsedRelocation) (base : VAddr) (symbols : SymbolResolver)
      (stubs : Option StubAllocator) (bytes : Bytes.Bytes)
      → (apply_relocation walk reloc base symbols (stubs, bytes)).1
        ≡ stored (add64 base reloc.offset) (value_of walk reloc base symbols stubs) bytes
  unfolding apply_relocation value_of
  apply_relocation-value_of reloc base symbols stubs bytes =
      elim (Bool-cases (reloc.rel_type == r_x86_64_relative)) [
        | inl r ↦ rw (r) refl
        | inr not_r ↦ elim (Bool-cases (is_import reloc.rel_type)) [
          | inl i ↦ rw (not_r, i) refl
          | inr not_i ↦ elim (Bool-cases (reloc.rel_type == r_x86_64_dtpmod64)) [
            | inl t ↦ rw (not_r, not_i, t) refl
            | inr not_t ↦ rw (not_r, not_i, not_t) refl
          ]
        ]
      ]

  -- At the target stands the value that the relocation asks for.
  pub apply_relocation_lem :
      (reloc : ParsedRelocation) (base : VAddr) (symbols : SymbolResolver)
      (stubs : Option StubAllocator) (bytes : Bytes.Bytes) (value : ℕ)
      → value_of walk reloc base symbols stubs ≡ some value
      → fetch 8
          (add64 base reloc.offset)
          (apply_relocation walk reloc base symbols (stubs, bytes)).1
        ≡ value
  unfolding value_of
  apply_relocation_lem reloc base symbols stubs bytes value h =
      let small : value < 256 ^ 8 = ground (arith, h) in
      rw (apply_relocation-value_of reloc base symbols stubs bytes, h)
        (fetch-store 8 (add64 base reloc.offset) value bytes small)

  apply_relocation-Outside :
      (reloc : ParsedRelocation) (base : VAddr) (symbols : SymbolResolver)
      (stubs : Option StubAllocator) (bytes : Bytes.Bytes) (at : ℕ)
      → Outside at (add64 base reloc.offset) 8
      → (apply_relocation walk reloc base symbols (stubs, bytes)).1 at ≡ bytes at
  apply_relocation-Outside reloc base symbols stubs bytes at h =
      ap (λ (b : Bytes.Bytes). b at) (apply_relocation-value_of reloc base symbols stubs bytes)
      ∙ stored-Outside (add64 base reloc.offset) (value_of walk reloc base symbols stubs) bytes at h

  pub relocate_module-Outside :
      (relocs : List ParsedRelocation) (base : VAddr) (symbols : SymbolResolver)
      (s : Option StubAllocator × Bytes.Bytes) (at : ℕ)
      → All (λ (r : ParsedRelocation). Outside at (add64 base r.offset) 8) relocs
      → (relocate_module walk relocs base symbols s).1 at ≡ s.1 at
  unfolding relocate_module
  relocate_module-Outside [] base symbols s at h = refl
  relocate_module-Outside (r ∷ relocs) base symbols s at h =
      relocate_module-Outside relocs base symbols (apply_relocation walk r base symbols s) at h.1
      ∙ apply_relocation-Outside r base symbols s.0 s.1 at h.0

  pub relocate_modules-Outside :
      (modules : List Module) (symbols : SymbolResolver) (s : Option StubAllocator × Bytes.Bytes)
      (at : ℕ)
      → All (Untouched at) modules
      → (relocate_modules walk modules symbols s).1 at ≡ s.1 at
  unfolding relocate_modules
  relocate_modules-Outside [] symbols s at h = refl
  relocate_modules-Outside (m ∷ modules) symbols s at h =
      relocate_modules-Outside modules symbols
        (relocate_module walk m.relocations m.base_virtual_addr symbols s) at h.1
      ∙ relocate_module-Outside m.relocations m.base_virtual_addr symbols s at h.0

  -- Relocate_all changes no byte outside of the eight bytes at the targets of the relocations.
  pub relocate_all-Outside :
      (self : Linker) (stubs : Option StubAllocator) (at : ℕ)
      → All (Untouched at) self.modules
      → (relocate_all walk self stubs).0.state.bytes at ≡ self.state.bytes at
  unfolding relocate_all
  relocate_all-Outside self stubs at h =
      relocate_modules-Outside self.modules self.hle_symbols (stubs, self.state.bytes) at h
