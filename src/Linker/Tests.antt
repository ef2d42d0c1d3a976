-- ===== src/Linker/Tests.antt =====
-- Runs and witnesses for the linker: two modules that need each other, on a disk that holds both.
use anotherps4_emulator.Common.{
  ℕ, ◌≡◌, refl, inl, List, [], ◌∷◌, Option, none, some, true, false, ◌||◌, length, get_elem?, All,
  arith, if◌then◌else◌,
}
use anotherps4_emulator.Common.Int.{pos}
use anotherps4_emulator.Common.Result.{Result, ok, err}
use anotherps4_emulator.Common.Reader.{Bytes, ByteOrder, little_endian, read_le, read_exact}
use anotherps4_emulator.Common.Reader.RoundTrip.{put_le}
use anotherps4_emulator.Common.Text.{Str, str_eq}
use anotherps4_emulator.Common.Utf8.{valid_from, chunk, lossy_from}
use anotherps4_emulator.Types.{align_up}
use anotherps4_emulator.Memory.AddressSpace
use anotherps4_emulator.Memory.AddressSpace.{AddressSpace, Libc}
use anotherps4_emulator.Memory.Virtual.{
  MemoryManager, free_area, map_memory, find_free_region, carve_vma, carve_keys, overlapping,
}
use anotherps4_emulator.Hle.Bytes.{copy}
use anotherps4_emulator.Loader.Elf.{
  parse, read_self, read_dynamic, resolve_file_offset_internal, dynlib_slice,
}
use anotherps4_emulator.Loader.Elf.Queries.{
  load_segments, needed_modules, get_dynamic_string, dynamic_value, until_nul, tls_header,
  proc_param_header, eh_frame_header, resolve_file_offset, elf_offset,
}
use anotherps4_emulator.Loader.Elf.Types.{
  Elf, ElfHeader, ElfType, ProgramHeader, ProgramType, elf_magic, elf_type_of, program_type_of,
}
use anotherps4_emulator.Loader.Elf.Tables.{DynamicEntry}
use anotherps4_emulator.Loader.Elf.Read.{
  read_ident, read_elf_header, read_program_header, read_program_headers,
}
use anotherps4_emulator.Loader.Elf.RoundTrip.{
  put_elf_header, put_program_headers, put_program_header, put_ident,
}
use anotherps4_emulator.Loader.Elf.Written.{put_elf, put_dynamic}
use anotherps4_emulator.Linker.Module.{
  LoadError, LoadState, Module, lowest, highest, copy_segment, copy_segments, slice,
  parse_relocations,
}
use anotherps4_emulator.Linker.Load.{load, load_elf, fill, module_of}
use anotherps4_emulator.Linker.Modules.{
  Host, Linker, Loaded, position, load_module, load_dependencies, dependency_path, patch_eboot,
}
use anotherps4_emulator.Linker.Loaded.{load_module_lem, load_module-Extends}
use anotherps4_emulator.Linker.Names.{Extends}
use anotherps4_emulator.Linker.Inside.{IsSane, load_inside}
use anotherps4_emulator.Linker.Load.{span}
use anotherps4_emulator.Linker.Terminates.{unloaded, load_module_total}
use Prim.Native.String.{String}

abbrev order : ByteOrder
order = record { read = little_endian }

abbrev libc : Libc
libc = record {
  mmap = λ addr size prot fixed. some addr;
  munmap = λ addr size. true;
  mprotect = λ addr size prot. true;
}

abbrev space : AddressSpace
space = record {
  backing_base = 0x1000_0000;
  backing_size = 0x10_0000;
  system_managed_base = 0x2000_0000;
  system_managed_size = 0x10_0000;
  system_reserved_base = 0x3000_0000;
  system_reserved_size = 0x10_0000;
  user_base = 0x10_0000;
  user_region_size = 0x10_0000;
}

abbrev memory : MemoryManager
memory = record {
  address_space = space;
  physical = record { areas = []; total_size = 0 };
  vma_map = (0x10_0000, free_area 0x10_0000 0x10_0000) ∷ [];
  total_direct_size = 0x10_0000;
  total_flexible_size = 0;
  flexible_usage = 0;
}

abbrev header : ElfHeader
header = record {
  ident = record {
    magic = elf_magic;
    class_byte = 2;
    data_byte = 1;
    version = 1;
    os_abi = 9;
    abi_version = 0;
    padding = 0 ∷ 0 ∷ 0 ∷ 0 ∷ 0 ∷ 0 ∷ 0 ∷ [];
  };
  elf_type = ElfType.sce_dynamic;
  machine = 62;
  version = 1;
  entry = 0;
  phoff = 64;
  shoff = 0;
  flags = 0;
  ehsize = 64;
  phentsize = 56;
  phnum = 3;
  shentsize = 0;
  shnum = 0;
  shstrndx = 0;
}

abbrev ph : ProgramType → ℕ → ℕ → ProgramHeader
ph type_of offset size = record {
  phdr_type = type_of;
  flags = 5;
  offset = offset;
  vaddr = 0x1000;
  paddr = 0;
  filesz = size;
  memsz = size;
  align = 1;
}

abbrev headers : List ProgramHeader
headers =
    ph ProgramType.load 232 3
    ∷ ph ProgramType.dynamic 235 64
    ∷ ph ProgramType.sce_dynlib_data 299 3
    ∷ []

-- The text table holds the name at the offset 1.
abbrev entries : List DynamicEntry
entries =
    record { tag = pos 0x6100_0035; value = 0 }
    ∷ record { tag = pos 0x6100_0037; value = 3 }
    ∷ record { tag = pos 1; value = 1 }
    ∷ []

-- A module that needs the module with a name of one letter.
abbrev file : ℕ → Bytes
file letter =
    put_elf header headers
      (1 ∷ 2 ∷ 3 ∷ put_dynamic entries (put_le 8 0 (put_le 8 0 (0 ∷ letter ∷ 0 ∷ []))))

abbrev a : Str
a = 97 ∷ []

abbrev b : Str
b = 98 ∷ []

abbrev names : List Str
names = a ∷ b ∷ []

abbrev host : Host
host = record {
  file_name = λ path. some path;
  parent = λ path. some [];
  join = λ dir name. name;
  exists = λ path. str_eq a path || str_eq b path;
  read = λ path.
      if str_eq a path then some (file 98) else if str_eq b path then some (file 97) else none;
}

abbrev label : Str → String
label name = "module"

abbrev start : Linker
start = record {
  modules = [];
  hle_symbols = record { symbols = [] };
  state = record { memory = memory; bytes = λ at. 0; max_tls_index = 0 };
  dtv_generation_counter = 1;
  static_tls_size = 0;
}

two : unloaded names [] ≡ 2
unfolding unloaded position
two = refl

load_module_total_example :
    (self' : Linker) × (result : Result LoadError ℕ) × (load_module host libc order label 3 a start
      ≡ some (self', result))
load_module_total_example =
    load_module_total host names libc order label (λ path bytes h. ground arith) 3 a start
      (omega (arith, two))

abbrev linker_of : Loaded → Linker
linker_of none = start
linker_of (some (self, result)) = self

abbrev both : Linker
both = linker_of (load_module host libc order label 3 a start)

-- Both modules are loaded, each once.
load_run :
    (load_module host libc order label 3 a start ≡ some (both, ok 0)) × (length both.modules ≡ 2)
unfolding load_module load_dependencies position dependency_path load load_elf fill module_of lowest
    highest copy_segments copy_segment slice parse_relocations resolve_file_offset elf_offset
    resolve_file_offset_internal load_segments needed_modules get_dynamic_string dynamic_value
    until_nul tls_header proc_param_header eh_frame_header valid_from chunk lossy_from parse
    read_self read_dynamic dynlib_slice read_elf_header read_ident read_program_headers
    read_program_header read_le read_exact elf_type_of program_type_of put_elf_header put_ident
    put_program_headers put_program_header put_le put_dynamic map_memory find_free_region carve_vma
    carve_keys overlapping align_up copy patch_eboot AddressSpace.map
load_run = (refl, refl)

load_module_lem_example : (m : Module) × (get_elem? both.modules 0 ≡ some m) × (m.name ≡ a)
load_module_lem_example =
    load_module_lem host libc order label 3 a start both 0 load_run.0 (omega (arith, load_run.1))

load_module-Extends_example : Extends start both
load_module-Extends_example =
    load_module-Extends host libc order label 3 a start both (ok 0) load_run.0

-- One of the two, on its own.
abbrev alone : LoadState × Result LoadError Module
alone = load libc order label a (some (file 98)) start.state

abbrev module_in : Result LoadError Module → Option Module
module_in (ok m) = some m
module_in (err e) = none

abbrev elf : Elf
elf = record {
  is_self = false;
  self_header = none;
  self_segments = [];
  header = header;
  program_headers = headers;
  dynamic_entries = entries;
  dynlib_data = 0 ∷ 98 ∷ 0 ∷ [];
  raw_data = file 98;
}

abbrev module_a : Module
module_a = record {
  name = a;
  elf = elf;
  base_virtual_addr = 0x10_0000;
  aligned_base_size = 0x4000;
  proc_param_addr = 0;
  eh_frame_hdr_addr = 0;
  eh_frame_hdr_size = 0;
  relocations = [];
  tls_index = 0;
  tls_image_addr = 0;
  tls_image_size = 0;
  tls_size = 0;
  tls_align = 0;
  min_addr = 0x1000;
  init_array_addr = 0;
  init_array_size = 0;
  init_addr = 0;
}

alone_run : alone ≡ (alone.0, ok module_a)
unfolding load_module load_dependencies position dependency_path load load_elf fill module_of lowest
    highest copy_segments copy_segment slice parse_relocations resolve_file_offset elf_offset
    resolve_file_offset_internal load_segments needed_modules get_dynamic_string dynamic_value
    until_nul tls_header proc_param_header eh_frame_header valid_from chunk lossy_from parse
    read_self read_dynamic dynlib_slice read_elf_header read_ident read_program_headers
    read_program_header read_le read_exact elf_type_of program_type_of put_elf_header put_ident
    put_program_headers put_program_header put_le put_dynamic map_memory find_free_region carve_vma
    carve_keys overlapping align_up copy patch_eboot AddressSpace.map
alone_run = refl

sizes : (highest (load_segments elf) 0 ≡ 0x1003) × (span elf ≡ 3) × All IsSane (load_segments elf)
unfolding highest lowest load_segments
sizes = (refl, refl, ((omega arith, omega arith), tt))

load_inside_example : alone.0.bytes 0x50 ≡ 0
load_inside_example =
    load_inside libc order label a (some (file 98)) start.state alone.0 module_a 0x50 alone_run
      sizes.2 (omega (arith, sizes.0)) (omega (arith, sizes.1)) (inl (omega arith))
