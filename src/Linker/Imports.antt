-- ===== src/Linker/Imports.antt =====
-- From an import to its call: what the relocations of crates/core/src/linker/relocation.rs make of a symbol that the
-- registry knows, and of one that gets a stub, down to the trap that crates/core/src/hle/dispatcher.rs handles.
use anotherps4_emulator.Common.{
  ℕ, ◌≡◌, ◌≢◌, refl, ◌∙◌, ap, [], ◌∷◌, ◌++◌, Option, some, true, false, ◌==◌, All, arith,
}
use anotherps4_emulator.Types.{VAddr, add64}
use anotherps4_emulator.Loader.Elf.Tables.{as_u64}
use anotherps4_emulator.Hle.Bytes.{Bytes, fetch}
use anotherps4_emulator.Hle.Stubs.{StubAllocator}
use anotherps4_emulator.Loader.Nids.{before_hash}
use anotherps4_emulator.Loader.Nids.Found.{before_hash-append, before_hash_self}
use anotherps4_emulator.Loader.Symbols.{
  Str, Entries, SymbolRecord, SymbolResolver, add_symbol, resolve,
}
use anotherps4_emulator.Loader.Symbols.Lookup.{add_symbol_lem}
use anotherps4_emulator.Linker.Relocation.{
  ParsedRelocation, r_x86_64_relative, resolve_import, apply_relocation,
}
use anotherps4_emulator.Linker.Relocated.{is_import, value_of, apply_relocation_lem}

suffixed-ne-nil : (nid suffix : Str) → nid ++ 35 ∷ suffix ≢ []
suffixed-ne-nil [] suffix e = cc e
suffixed-ne-nil (c ∷ nid) suffix e = cc e

module _ (walk : Entries → Entries) where
  -- The base name of a symbol is looked up first.
  resolve_import-known :
      (symbols : SymbolResolver) (symbol_name nid : Str) (stubs : Option StubAllocator)
      (addr : VAddr)
      → symbol_name ≢ []
      → before_hash symbol_name ≡ nid
      → resolve walk symbols nid ≡ some addr
      → resolve_import walk symbols symbol_name stubs ≡ (addr, stubs)
  unfolding resolve_import
  resolve_import-known symbols [] nid stubs addr some_name base found = absurd (some_name refl)
  resolve_import-known symbols (c ∷ s) nid stubs addr some_name base found =
      rw (resolve_import, base, found) refl

  -- The value of an import, and what it leaves of the stubs, is that of its lookup.
  import-value_of :
      (reloc : ParsedRelocation) (base : VAddr) (symbols : SymbolResolver)
      (stubs : Option StubAllocator)
      → is_import reloc.rel_type ≡ true
      → value_of walk reloc base symbols stubs
        ≡ some (add64 (resolve_import walk symbols reloc.symbol_name stubs).0 (as_u64 reloc.addend))
  unfolding value_of
  import-value_of reloc base symbols stubs import =
      let other : (reloc.rel_type == r_x86_64_relative) ≡ false = ground (arith, import) in
      rw (value_of, other, import) refl

  import-stubs :
      (reloc : ParsedRelocation) (base : VAddr) (symbols : SymbolResolver)
      (stubs : Option StubAllocator) (bytes : Bytes)
      → is_import reloc.rel_type ≡ true
      → (apply_relocation walk reloc base symbols (stubs, bytes)).0
        ≡ (resolve_import walk symbols reloc.symbol_name stubs).1
  unfolding apply_relocation
  import-stubs reloc base symbols stubs bytes import =
      let other : (reloc.rel_type == r_x86_64_relative) ≡ false = ground (arith, import) in
      rw (apply_relocation, other, import) refl

  -- After a symbol without a # in its name has been added to the registry, an import of that name with
  -- any suffix behind a # leaves at its target the address of the new record plus the addend, modulo
  -- 2 ^ 64, and allocates no stub, whatever else is registered.
  pub apply_relocation-add_symbol :
      (symbols : SymbolResolver) (nid suffix : Str) (rec : SymbolRecord) (reloc : ParsedRelocation)
      (base : VAddr) (stubs : Option StubAllocator) (bytes : Bytes)
      → All (λ (c : ℕ). c ≢ 35) nid
      → reloc.symbol_name ≡ nid ++ 35 ∷ suffix
      → is_import reloc.rel_type ≡ true
      → let after = apply_relocation walk reloc base (add_symbol symbols nid rec) (stubs, bytes) in
        (fetch 8 (add64 base reloc.offset) after.1
          ≡ add64 rec.virtual_address (as_u64 reloc.addend))
        × (after.0 ≡ stubs)
  apply_relocation-add_symbol symbols nid suffix rec reloc base stubs bytes plain called import =
      let symbols' = add_symbol symbols nid rec in
      let at_base : before_hash reloc.symbol_name ≡ nid =
        rw (called) (before_hash-append nid suffix plain ∙ before_hash_self nid plain) in
      let found : resolve_import walk symbols' reloc.symbol_name stubs
          ≡ (rec.virtual_address, stubs) =
        resolve_import-known symbols' reloc.symbol_name nid stubs rec.virtual_address
          (rw (called) (suffixed-ne-nil nid suffix)) at_base
          (add_symbol_lem symbols walk nid nid rec).1 in
      let value : value_of walk reloc base symbols' stubs
          ≡ some (add64 rec.virtual_address (as_u64 reloc.addend)) =
        rw (import-value_of reloc base symbols' stubs import, found) refl in
      (
        apply_relocation_lem walk reloc base symbols' stubs bytes
            (add64 rec.virtual_address (as_u64 reloc.addend)) value,
        import-stubs reloc base symbols' stubs bytes import ∙ ap (λ r. r.1) found,
      )
