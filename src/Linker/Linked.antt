-- ===== src/Linker/Linked.antt =====
-- What stands in memory when all modules are relocated (crates/core/src/linker/mod.rs): each value whose place no
-- later relocation writes.
use anotherps4_emulator.Common.{
  ℕ, ◌+◌, ◌≤◌, ◌<◌, ◌≡◌, refl, ◌∙◌, ◌⊎◌, List, [], ◌∷◌, ◌++◌, Option, some, All, arith,
}
use anotherps4_emulator.Types.{VAddr, add64}
use anotherps4_emulator.Hle.Bytes
use anotherps4_emulator.Hle.Bytes.{fetch}
use anotherps4_emulator.Hle.Bytes.Words.{Outside, fetch-cong}
use anotherps4_emulator.Hle.Stubs.{StubAllocator}
use anotherps4_emulator.Loader.Symbols.{Entries, SymbolResolver}
use anotherps4_emulator.Linker.Relocation.{ParsedRelocation, apply_relocation}
use anotherps4_emulator.Linker.Module.{Module}
use anotherps4_emulator.Linker.Modules.{Linker}
use anotherps4_emulator.Linker.Start.{relocate_module, relocate_modules, relocate_all}
use anotherps4_emulator.Linker.Relocated.{
  value_of, apply_relocation_lem, relocate_module-Outside, relocate_modules-Outside, Untouched,
}

-- Eight bytes apart from the eight bytes at a target.
abbrev pub Apart : VAddr → VAddr → Type 0
Apart target addr = (target + 8 ≤ addr) ⊎ (addr + 8 ≤ target)

abbrev pub AllApart : VAddr → VAddr → List ParsedRelocation → Type 0
AllApart target base relocs =
    All (λ (r : ParsedRelocation). Apart target (add64 base r.offset)) relocs

AllApart-Outside :
    (target at : ℕ) (base : VAddr) (relocs : List ParsedRelocation)
    → target ≤ at
    → at < target + 8
    → AllApart target base relocs
    → All (λ (r : ParsedRelocation). Outside at (add64 base r.offset) 8) relocs
AllApart-Outside target at base [] l u h = tt
AllApart-Outside target at base (r ∷ relocs) l u h =
    (ground (arith, h.0), AllApart-Outside target at base relocs l u h.1)

abbrev pub ModulesApart : VAddr → List Module → Type 0
ModulesApart target modules =
    All (λ (m : Module). AllApart target m.base_virtual_addr m.relocations) modules

ModulesApart-Untouched :
    (target at : ℕ) (modules : List Module)
    → target ≤ at
    → at < target + 8
    → ModulesApart target modules
    → All (Untouched at) modules
ModulesApart-Untouched target at [] l u h = tt
ModulesApart-Untouched target at (m ∷ modules) l u h = (
  AllApart-Outside target at m.base_virtual_addr m.relocations l u h.0,
  ModulesApart-Untouched target at modules l u h.1,
)

module _ (walk : Entries → Entries) (symbols : SymbolResolver) (r : ParsedRelocation) (base : VAddr)
    (value : ℕ)
    (known : (stubs : Option StubAllocator) → value_of walk r base symbols stubs ≡ some value) where
  abbrev target : VAddr
  target = add64 base r.offset

  relocate_module_lem :
      (before after : List ParsedRelocation) (s : Option StubAllocator × Bytes.Bytes)
      → AllApart target base after
      → fetch 8 target (relocate_module walk (before ++ r ∷ after) base symbols s).1 ≡ value
  unfolding relocate_module
  relocate_module_lem [] after s apart =
      let s' : Option StubAllocator × Bytes.Bytes = apply_relocation walk r base symbols s in
      fetch-cong 8 target (relocate_module walk after base symbols s').1 s'.1 (λ at l u.
        relocate_module-Outside walk after base symbols s' at
          (AllApart-Outside target at base after l u apart))
      ∙ apply_relocation_lem walk r base symbols s.0 s.1 value (known s.0)
  relocate_module_lem (x ∷ before) after s apart =
      relocate_module_lem before after (apply_relocation walk x base symbols s) apart

  relocate_modules_lem :
      (m : Module) (before after : List ParsedRelocation) (earlier later : List Module)
      (s : Option StubAllocator × Bytes.Bytes)
      → m.base_virtual_addr ≡ base
      → m.relocations ≡ before ++ r ∷ after
      → AllApart target base after
      → ModulesApart target later
      → fetch 8 target (relocate_modules walk (earlier ++ m ∷ later) symbols s).1 ≡ value
  unfolding relocate_modules
  relocate_modules_lem m before after [] later s b e apart apart' =
      let s' : Option StubAllocator × Bytes.Bytes =
        relocate_module walk m.relocations m.base_virtual_addr symbols s in
      fetch-cong 8 target (relocate_modules walk later symbols s').1 s'.1 (λ at l u.
        relocate_modules-Outside walk later symbols s' at
          (ModulesApart-Untouched target at later l u apart'))
      ∙ (rw (b, e) (relocate_module_lem before after s apart))
  relocate_modules_lem m before after (x ∷ earlier) later s b e apart apart' =
      relocate_modules_lem m before after earlier later _ b e apart apart'

-- Behind relocate_all, the eight bytes at the target of a relocation hold the value that its type asks
-- for, when that value is the same for any stubs and no later relocation of its module or of a later
-- module writes there.
pub relocate_all_lem :
    (walk : Entries → Entries) (self : Linker) (stubs : Option StubAllocator)
    (earlier later : List Module) (m : Module) (before after : List ParsedRelocation)
    (r : ParsedRelocation) (value : ℕ)
    → self.modules ≡ earlier ++ m ∷ later
    → m.relocations ≡ before ++ r ∷ after
    → ((any : Option StubAllocator)
        → value_of walk r m.base_virtual_addr self.hle_symbols any ≡ some value)
    → AllApart (add64 m.base_virtual_addr r.offset) m.base_virtual_addr after
    → ModulesApart (add64 m.base_virtual_addr r.offset) later
    → fetch 8 (add64 m.base_virtual_addr r.offset) (relocate_all walk self stubs).0.state.bytes
      ≡ value
unfolding relocate_all
relocate_all_lem walk self stubs earlier later m before after r value e e' known apart apart' =
    rw (e) (
      relocate_modules_lem walk self.hle_symbols r m.base_virtual_addr value known m before after
        earlier later (stubs, self.state.bytes) refl e' apart apart')
