-- ===== src/Linker/Load.antt =====
-- `Module::load` of crates/core/src/linker/module.rs. What the disk holds at the path is an argument, `none` a failure
-- to read it; the calls of libc, the reads of byteorder and the label of an area are parameters.
use anotherps4_emulator.Common.{
  ℕ, ◌+◌, ◌-◌, ◌%◌, ◌^◌, List, Option, none, some, ◌==◌, bit_or, if◌then◌else◌,
}
use anotherps4_emulator.Common.Result.{Result, ok, err}
use anotherps4_emulator.Common.Reader.{ByteOrder}
use anotherps4_emulator.Types.{VAddr, add64, sub64, align_up, page_size}
use anotherps4_emulator.Memory.MemoryProt
use anotherps4_emulator.Memory.MemoryMapFlags
use anotherps4_emulator.Memory.AddressSpace.{Libc}
use anotherps4_emulator.Memory.Vma.{VmaType}
use anotherps4_emulator.Memory.Virtual.{map_memory}
use anotherps4_emulator.Loader.Symbols.{Str}
use anotherps4_emulator.Loader.Elf.{parse, dt_init, dt_init_array, dt_init_arraysz}
use anotherps4_emulator.Loader.Elf.Queries.{
  load_segments, proc_param_header, eh_frame_header, tls_header, dynamic_value,
}
use anotherps4_emulator.Loader.Elf.Types.{Elf, ProgramHeader}
use anotherps4_emulator.Linker.Relocation.{ParsedRelocation}
use anotherps4_emulator.Linker.Module.{
  LoadError, LoadState, Module, open_failed, no_load_segments, map_failed, invalid, lowest, highest,
  copy_segments, parse_relocations,
}
use Prim.Native.String.{String}

-- The value of a header or of a dynamic entry as an address in memory, or 0.
abbrev pub moved : VAddr → ℕ → Option ℕ → VAddr
moved base min_addr none = 0
moved base min_addr (some addr) = sub64 (add64 base addr) min_addr

abbrev pub vaddr_of : Option ProgramHeader → Option ℕ
vaddr_of none = none
vaddr_of (some ph) = some ph.vaddr

abbrev pub or_zero : Option ℕ → ℕ
or_zero none = 0
or_zero (some v) = v

-- `as u32` of a field of a header, or 0.
abbrev pub u32_of : (ProgramHeader → ℕ) → Option ProgramHeader → ℕ
u32_of field none = 0
u32_of field (some ph) = field ph % 2 ^ 32

-- The module that `load` returns, and the highest TLS index behind it.
unfoldable pub module_of : Str → Elf → VAddr → ℕ → ℕ → ℕ → List ParsedRelocation → Module × ℕ
module_of name elf base size min_addr max_tls_index relocations =
    let tls = tls_header elf in
    let next : ℕ = elim tls [ none ↦ max_tls_index | some _ ↦ (max_tls_index + 1) % 2 ^ 32 ] in
    let eh_frame = eh_frame_header elf in
    (
      record {
        name = name;
        elf = elf;
        base_virtual_addr = base;
        aligned_base_size = size;
        proc_param_addr = moved base min_addr (vaddr_of (proc_param_header elf));
        eh_frame_hdr_addr = moved base min_addr (vaddr_of eh_frame);
        eh_frame_hdr_size = u32_of (λ ph. ph.filesz) eh_frame;
        relocations = relocations;
        tls_index = elim tls [ none ↦ 0 | some _ ↦ next ];
        tls_image_addr = moved base min_addr (vaddr_of tls);
        tls_image_size = u32_of (λ ph. ph.filesz) tls;
        tls_size = u32_of (λ ph. ph.memsz) tls;
        tls_align = u32_of (λ ph. ph.align) tls;
        min_addr = min_addr;
        init_array_addr = moved base min_addr (dynamic_value elf dt_init_array);
        init_array_size = or_zero (dynamic_value elf dt_init_arraysz);
        init_addr = moved base min_addr (dynamic_value elf dt_init);
      },
      next,
    )

-- From the lowest to the highest address of the segments.
abbrev pub span : Elf → ℕ
span elf = sub64 (highest (load_segments elf) 0) (lowest (load_segments elf) (2 ^ 64 - 1))

abbrev pub module_size : Elf → ℕ
module_size elf = align_up (span elf) page_size

module _ (libc : Libc) (order : ByteOrder) (label : Str → String) where
  -- What `load` does behind the mapping of the module's region.
  unfoldable pub fill : Str → Elf → VAddr → ℕ → ℕ → LoadState → LoadState × Result LoadError Module
  fill name elf base size min_addr self =
      elim (copy_segments elf base min_addr 0 elf.program_headers self.bytes) [
        | err e ↦ (self, err e)
        | ok bytes ↦
            let self' = record self { bytes = bytes } in
            elim (parse_relocations order elf) [
              | err e ↦ (self', err e)
              | ok relocations ↦
                  let (m, max_tls_index) =
                    module_of name elf base size min_addr self.max_tls_index relocations in
                  (record self' { max_tls_index = max_tls_index }, ok m)
            ]
      ]

  unfoldable pub load_elf : Str → Elf → LoadState → LoadState × Result LoadError Module
  load_elf name elf self =
      let min_addr = lowest (load_segments elf) (2 ^ 64 - 1) in
      if min_addr == 2 ^ 64 - 1
      then (self, err no_load_segments)
      else let (memory, mapped) =
          map_memory libc self.memory 0 (module_size elf)
            (bit_or (bit_or MemoryProt.cpu_read MemoryProt.cpu_write) MemoryProt.cpu_exec)
            (bit_or MemoryMapFlags.anonymous MemoryMapFlags.private_map) VmaType.code
            (label name) in
        elim mapped [
          | none ↦ (record self { memory = memory }, err map_failed)
          | some base ↦
              fill name elf base (module_size elf) min_addr (record self { memory = memory })
        ]

  -- `Module::load`
  unfoldable pub load : Str → Option (List ℕ) → LoadState → LoadState × Result LoadError Module
  load name none self = (self, err open_failed)
  load name (some file) self = elim (parse order file) [
    | err e ↦ (self, err (invalid e))
    | ok elf ↦ load_elf name elf self
  ]
