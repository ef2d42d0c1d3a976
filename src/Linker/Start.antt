-- ===== src/Linker/Start.antt =====
-- crates/core/src/linker/mod.rs behind the loading: the relocation of all modules, the entry point, and the functions
-- to call before it.
use anotherps4_emulator.Common.{
  ℕ, zero, suc, ◌+◌, ◌*◌, List, [], ◌∷◌, ◌++◌, Option, none, some, ◌&&◌, ◌==◌, ltb, leb, length,
  if◌then◌else◌,
}
use anotherps4_emulator.Types.{VAddr, add64}
use anotherps4_emulator.Hle.Bytes
use anotherps4_emulator.Hle.Bytes.{fetch}
use anotherps4_emulator.Hle.Stubs.{StubAllocator}
use anotherps4_emulator.Loader.Symbols.{Entries, SymbolResolver}
use anotherps4_emulator.Linker.Relocation.{ParsedRelocation, apply_relocation}
use anotherps4_emulator.Linker.Module.{Module}
use anotherps4_emulator.Linker.Modules.{Linker, main_module}

-- `Linker::relocate_all`: the relocations of one module at its base, and those of all modules.
unfoldable pub relocate_module :
    (Entries → Entries)
    → List ParsedRelocation
    → VAddr
    → SymbolResolver
    → Option StubAllocator × Bytes.Bytes
    → Option StubAllocator × Bytes.Bytes
relocate_module walk [] base hle_symbols s = s
relocate_module walk (r ∷ relocs) base hle_symbols s =
    relocate_module walk relocs base hle_symbols (apply_relocation walk r base hle_symbols s)

unfoldable pub relocate_modules :
    (Entries → Entries)
    → List Module
    → SymbolResolver
    → Option StubAllocator × Bytes.Bytes
    → Option StubAllocator × Bytes.Bytes
relocate_modules walk [] hle_symbols s = s
relocate_modules walk (m ∷ modules) hle_symbols s =
    relocate_modules walk modules hle_symbols
      (relocate_module walk m.relocations m.base_virtual_addr hle_symbols s)

unfoldable pub relocate_all :
    (Entries → Entries) → Linker → Option StubAllocator → Linker × Option StubAllocator
relocate_all walk self stubs =
    let (stubs', bytes) =
      relocate_modules walk self.modules self.hle_symbols (stubs, self.state.bytes) in
    (record self { state = record self.state { bytes = bytes } }, stubs')

unfoldable pub entry_point : Linker → Option VAddr
entry_point self = elim (main_module self) [
  | none ↦ none
  | some m ↦ some (add64 m.base_virtual_addr m.elf.header.entry)
]

unfoldable pub module_count : Linker → ℕ
module_count self = length self.modules

unfoldable pub dt_init_funcs : List Module → List VAddr
dt_init_funcs [] = []
dt_init_funcs (m ∷ modules) =
    if ltb 0x1000 m.init_addr then m.init_addr ∷ dt_init_funcs modules else dt_init_funcs modules

unfoldable pub get_dt_init_funcs : Linker → List VAddr
get_dt_init_funcs self = dt_init_funcs self.modules

-- The loop over a table of functions from entry `i` on; `left` turns are left of the limit.
unfoldable pub init_array_loop : ℕ → ℕ → ℕ → ℕ → Bytes.Bytes → List VAddr
init_array_loop zero addr size i bytes = []
init_array_loop (suc left) addr size i bytes =
    let func_ptr = fetch 8 (add64 addr (i * 8)) bytes in
    let rest = init_array_loop left addr size (i + 1) bytes in
    if ltb 0 size && leb size (i * 8)
    then []
    else if func_ptr == 0
    then (if size == 0 then [] else rest)
    else if ltb 0x1000 func_ptr
    then func_ptr ∷ rest
    else rest

abbrev pub init_limit : ℕ
init_limit = 10001

unfoldable pub init_array_funcs : List Module → Bytes.Bytes → List VAddr
init_array_funcs [] bytes = []
init_array_funcs (m ∷ modules) bytes =
    let funcs =
      if ltb 0x1000 m.init_array_addr
      then init_array_loop init_limit m.init_array_addr m.init_array_size 0 bytes
      else [] in
    funcs ++ init_array_funcs modules bytes

unfoldable pub get_init_array_funcs : Linker → List VAddr
get_init_array_funcs self = init_array_funcs self.modules self.state.bytes
