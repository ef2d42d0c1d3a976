-- ===== src/Linker/StartTests.antt =====
-- Runs and witnesses for the relocations, the assertion traps and the tables of functions.
use anotherps4_emulator.Common.{
  ℕ, ◌≡◌, refl, inl, inr, [], ◌∷◌, Option, none, some, true, false, arith,
}
use anotherps4_emulator.Common.Int.{ℤ, pos, negsuc}
use anotherps4_emulator.Common.Text.{Str, codes}
use anotherps4_emulator.Memory.Virtual.{MemoryManager}
use anotherps4_emulator.Hle.Bytes
use anotherps4_emulator.Hle.Bytes.{store, fetch, copy}
use anotherps4_emulator.Hle.Stubs.{StubAllocator}
use anotherps4_emulator.Loader.Symbols.{Entries, SymbolResolver, SymbolType, resolve}
use anotherps4_emulator.Loader.Nids.{before_hash}
use anotherps4_emulator.Loader.Elf.Types.{Elf, ElfType, elf_magic}
use anotherps4_emulator.Linker.Relocation.{
  ParsedRelocation, resolve_import, r_x86_64_relative, r_x86_64_jump_slot,
}
use anotherps4_emulator.Linker.Module.{Module}
use anotherps4_emulator.Linker.Modules.{Linker}
use anotherps4_emulator.Linker.Start.{
  relocate_all, get_init_array_funcs, init_array_funcs, init_array_loop,
}
use anotherps4_emulator.Linker.Traps.{trap_at, patch_traps}
use anotherps4_emulator.Linker.Relocated.{value_of, relocate_all-Outside}
use anotherps4_emulator.Linker.Linked.{relocate_all_lem}
use anotherps4_emulator.Linker.InitArray.{found_all, get_init_array_funcs_lem}
use anotherps4_emulator.Linker.Patched.{patch_traps_clean}

abbrev memory : MemoryManager
memory = record {
  address_space = record {
    backing_base = 0;
    backing_size = 0;
    system_managed_base = 0;
    system_managed_size = 0;
    system_reserved_base = 0;
    system_reserved_size = 0;
    user_base = 0;
    user_region_size = 0;
  };
  physical = record { areas = []; total_size = 0 };
  vma_map = [];
  total_direct_size = 0;
  total_flexible_size = 0;
  flexible_usage = 0;
}

abbrev elf : Elf
elf = record {
  is_self = false;
  self_header = none;
  self_segments = [];
  header = record {
    ident = record {
      magic = elf_magic;
      class_byte = 2;
      data_byte = 1;
      version = 1;
      os_abi = 9;
      abi_version = 0;
      padding = [];
    };
    elf_type = ElfType.sce_exec;
    machine = 62;
    version = 1;
    entry = 0x40;
    phoff = 64;
    shoff = 0;
    flags = 0;
    ehsize = 64;
    phentsize = 56;
    phnum = 0;
    shentsize = 0;
    shnum = 0;
    shstrndx = 0;
  };
  program_headers = [];
  dynamic_entries = [];
  dynlib_data = [];
  raw_data = [];
}

abbrev reloc : ℕ → ℕ → ℤ → Str → ParsedRelocation
reloc offset rel_type addend name = record {
  offset = offset;
  rel_type = rel_type;
  addend = addend;
  symbol_name = name;
  symbol_binding = 1;
  symbol_type = 2;
  is_jmp_rel = false;
}

abbrev relative : ParsedRelocation
relative = reloc 0x10 r_x86_64_relative (pos 0x40) []

abbrev import : ParsedRelocation
import = reloc 0x18 r_x86_64_jump_slot (negsuc 0) (codes "known#S#T")

abbrev unknown : ParsedRelocation
unknown = reloc 0x20 r_x86_64_jump_slot (pos 0) (codes "other")

abbrev main : Module
main = record {
  name = codes "eboot.bin";
  elf = elf;
  base_virtual_addr = 0x10_0000;
  aligned_base_size = 0x4000;
  proc_param_addr = 0;
  eh_frame_hdr_addr = 0;
  eh_frame_hdr_size = 0;
  relocations = relative ∷ import ∷ unknown ∷ [];
  tls_index = 0;
  tls_image_addr = 0;
  tls_image_size = 0;
  tls_size = 0;
  tls_align = 0;
  min_addr = 0;
  init_array_addr = 0x10_0100;
  init_array_size = 16;
  init_addr = 0;
}

abbrev symbols : SymbolResolver
symbols = record {
  symbols =
      (
        codes "known",
        record {
          name = codes "known_name";
          virtual_address = 0x9000;
          sym_type = SymbolType.function;
          library = [];
          module_name = [];
        },
      )
      ∷ [];
}

abbrev linker : Linker
linker = record {
  modules = main ∷ [];
  hle_symbols = symbols;
  state = record {
    memory = memory;
    bytes = store 8 0x10_0108 0x2_0000 (λ at. 0);
    max_tls_index = 0;
  };
  dtv_generation_counter = 1;
  static_tls_size = 0;
}

abbrev walk : Entries → Entries
walk entries = entries

import_value :
    (any : Option StubAllocator) → value_of walk import 0x10_0000 symbols any ≡ some 0x8fff
unfolding value_of resolve_import resolve before_hash
import_value any = refl

relocate_all_lem_example : fetch 8 0x10_0018 (relocate_all walk linker none).0.state.bytes ≡ 0x8fff
relocate_all_lem_example =
    relocate_all_lem walk linker none [] [] main (relative ∷ []) (unknown ∷ []) import 0x8fff refl
      refl import_value (inl (omega arith), tt) tt

relocate_all-Outside_example :
    (relocate_all walk linker none).0.state.bytes 0x10_0109
    ≡ store 8 0x10_0108 0x2_0000 (λ at. 0) 0x10_0109
relocate_all-Outside_example =
    relocate_all-Outside walk linker none 0x10_0109
      ((inr (omega arith), (inr (omega arith), (inr (omega arith), tt))), tt)

get_init_array_funcs_lem_example :
    get_init_array_funcs linker ≡ found_all linker.state.bytes (main ∷ [])
get_init_array_funcs_lem_example = get_init_array_funcs_lem linker

-- The second entry of the table is a function, the first is 0.
init_array_run : get_init_array_funcs linker ≡ 0x2_0000 ∷ []
unfolding get_init_array_funcs init_array_funcs init_array_loop fetch store
init_array_run = refl

abbrev trap : Bytes.Bytes
trap = copy (0x85 ∷ 0xC0 ∷ 0x75 ∷ 0x02 ∷ 0xCD ∷ 0x41 ∷ []) 0x103 (λ at. 0)

patch_traps_clean_example : trap_at (patch_traps 16 0x100 16 0 trap) 0x103 ≡ false
patch_traps_clean_example =
    patch_traps_clean 16 0x100 16 0 3 trap (omega arith) (omega arith) (omega arith)

patch_run : (trap_at trap 0x103 ≡ true) × (patch_traps 16 0x100 16 0 trap 0x104 ≡ 0x0A)
unfolding copy patch_traps
patch_run = (refl, refl)
