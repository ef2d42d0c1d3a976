-- ===== src/Linker/Modules.antt =====
-- crates/core/src/linker/mod.rs: the list of loaded modules. The host's disk, the calls of libc, the reads of byteorder
-- and the label of an area are parameters. Loading runs on fuel, and `none` is its end; a panic ends the program, so
-- no caller goes on behind it.
use anotherps4_emulator.Common.{
  ℕ, zero, suc, ◌+◌, ◌%◌, ◌^◌, List, [], ◌∷◌, ◌++◌, Option, none, some, Bool, true, false, length,
  get_elem?, if◌then◌else◌,
}
use anotherps4_emulator.Common.Result.{Result, ok, err}
use anotherps4_emulator.Common.Reader.{ByteOrder}
use anotherps4_emulator.Memory.AddressSpace.{Libc}
use anotherps4_emulator.Memory.Virtual.{MemoryManager}
use anotherps4_emulator.Hle.Bytes
use anotherps4_emulator.Loader.Symbols
use anotherps4_emulator.Loader.Symbols.{Str, str_eq, Entries, SymbolResolver}
use anotherps4_emulator.Common.Text.{codes}
use anotherps4_emulator.Loader.Elf.Queries.{needed_modules}
use anotherps4_emulator.Linker.Module.{LoadError, LoadState, Module, panicked, invalid}
use anotherps4_emulator.Linker.Load.{load}
use anotherps4_emulator.Linker.Traps.{patch_traps}
use anotherps4_emulator.Loader.Elf.Types.{ElfError}
use Prim.Native.String.{String}

-- The disk and the paths of the host: `file_name` and `parent` of a path, with the text of the former, `join`,
-- `exists`, and `fs::read`.
pub record Host : Type 0 where
  pub file_name : Str → Option Str
  pub parent : Str → Option Str
  pub join : Str → Str → Str
  pub exists : Str → Bool
  pub read : Str → Option (List ℕ)

pub record Linker : Type 0 where
  pub modules : List Module
  pub hle_symbols : SymbolResolver
  pub state : LoadState
  pub dtv_generation_counter : ℕ
  pub static_tls_size : ℕ

-- `Linker::new`
unfoldable pub new : MemoryManager → Bytes.Bytes → Linker
new memory bytes = record {
  modules = [];
  hle_symbols = Symbols.new;
  state = record { memory = memory; bytes = bytes; max_tls_index = 0 };
  dtv_generation_counter = 1;
  static_tls_size = 0;
}

-- `position` of the module with a name.
unfoldable pub position : List Module → Str → Option ℕ
position [] name = none
position (m ∷ modules) name =
    if str_eq m.name name
    then some 0
    else elim (position modules name) [ none ↦ none | some i ↦ some (i + 1) ]

-- `"eboot.bin"`, `"unknown"` and `"sce_module"`
abbrev pub eboot : Str
eboot = codes "eboot.bin"

abbrev pub unknown : Str
unknown = codes "unknown"

abbrev pub sce_module : Str
sce_module = codes "sce_module"

unfoldable pub patch_eboot : Module → LoadState → LoadState
patch_eboot m state =
    if str_eq m.name eboot
    then record state {
      bytes = patch_traps m.aligned_base_size m.base_virtual_addr m.aligned_base_size 0 state.bytes;
    }
    else state

abbrev pub is_panic : LoadError → Bool
is_panic panicked = true
is_panic (invalid ElfError.panicked) = true
is_panic _ = false

abbrev pub or_else : Option Str → Str → Str
or_else none s = s
or_else (some s) _ = s

abbrev pub Loaded : Type 0
Loaded = Option (Linker × Result LoadError ℕ)

-- What is left of the result of loading a dependency: an error is logged, a panic ends the program.
abbrev pub go_on : Loaded → (Linker → Loaded) → Loaded
go_on none next = none
go_on (some (self, ok idx)) next = next self
go_on (some (self, err e)) next = if is_panic e then some (self, err e) else next self

module _ (host : Host) where
  abbrev pub module_name : Str → Str
  module_name path = or_else (host.file_name path) unknown

  -- The path of a dependency: the same directory first, then `sce_module`.
  unfoldable pub dependency_path : Str → Str → Option Str
  dependency_path parent_dir dep =
      let dep_path = host.join parent_dir dep in
      let dep_sce = host.join (host.join parent_dir sce_module) dep in
      if host.exists dep_path
      then some dep_path
      else if host.exists dep_sce
      then some dep_sce
      else none

  -- The loop over the dependencies; `index` is the answer behind it.
  unfoldable pub load_dependencies : (Str → Linker → Loaded) → Str → List Str → ℕ → Linker → Loaded
  load_dependencies load_one parent_dir [] index self = some (self, ok index)
  load_dependencies load_one parent_dir (dep ∷ needed) index self =
      elim (dependency_path parent_dir dep) [
        | none ↦ load_dependencies load_one parent_dir needed index self
        | some path ↦
            go_on (load_one path self) (load_dependencies load_one parent_dir needed index)
      ]

  module _ (libc : Libc) (order : ByteOrder) (label : Str → String) where
    -- `Linker::load_module`
    unfoldable pub load_module : ℕ → Str → Linker → Loaded
    load_module zero path self = none
    load_module (suc fuel) path self = elim (position self.modules (module_name path)) [
      | some idx ↦ some (self, ok (idx % 2 ^ 32))
      | none ↦
          let (state, result) =
            load libc order label (module_name path) (host.read path) self.state in
          elim result [
            | err e ↦ some (record self { state = state }, err e)
            | ok m ↦
                load_dependencies (load_module fuel) (or_else (host.parent path) [])
                  (needed_modules m.elf) (length self.modules % 2 ^ 32)
                  (record self { modules = self.modules ++ (m ∷ []); state = patch_eboot m state })
          ]
    ]

unfoldable pub get_module : Linker → ℕ → Option Module
get_module self index = get_elem? self.modules index

unfoldable pub main_module : Linker → Option Module
main_module self = get_elem? self.modules 0
