-- ===== src/Memory/Virtual.antt =====
-- crates/core/src/memory/virtual_memory.rs: the virtual memory areas and the memory manager. `vma_map`
-- is the `BTreeMap` from base address to area; flag sets are their bits.
pub mod Order
pub mod Carve
pub mod Mapping
pub mod FreeRegion
mod Tests
use anotherps4_emulator.Common.{
  ℕ, ◌*◌, List, [], ◌∷◌, Option, none, some, Bool, true, false, ◌&&◌, ◌||◌, not, ltb, leb, ◌==◌,
  if◌then◌else◌,
}
use anotherps4_emulator.Types.{VAddr, PAddr, page_size, max_gpu_address, add64, sub64, align_up}
use anotherps4_emulator.Memory.Map.{Map, get, insert, remove}
use anotherps4_emulator.Memory.MemoryProt
use anotherps4_emulator.Memory.MemoryMapFlags
use anotherps4_emulator.Memory.Vma.{VmaType, VirtualMemoryArea, has_flags, is_free, overlaps}
use anotherps4_emulator.Memory.AddressSpace
use anotherps4_emulator.Memory.AddressSpace.{AddressSpace, Libc}
use anotherps4_emulator.Memory.Physical
use anotherps4_emulator.Memory.Physical.{PhysicalMemoryManager}
use anotherps4_emulator.Common.Int.{ℤ}
use Prim.Native.String.{String}

abbrev pub Vmas : Type 0
Vmas = Map VirtualMemoryArea

pub record MemoryManager : Type 0 where
  pub address_space : AddressSpace
  pub physical : PhysicalMemoryManager
  pub vma_map : Vmas
  pub total_direct_size : ℕ
  pub total_flexible_size : ℕ
  pub flexible_usage : ℕ

abbrev pub free_area : VAddr → ℕ → VirtualMemoryArea
free_area base size = record {
  base = base;
  size = size;
  vma_type = VmaType.free;
  prot = MemoryProt.none_bits;
  name = "";
  disallow_merge = false;
}

-- `MemoryManager::new`
unfoldable pub new : Libc → Option MemoryManager
new libc = elim (AddressSpace.new libc) [
  | none ↦ none
  | some address_space ↦ some (record {
    address_space = address_space;
    physical = Physical.new (5632 * 1024 * 1024);
    vma_map =
        insert address_space.user_base
          (free_area address_space.user_base address_space.user_region_size) [];
    total_direct_size = 5632 * 1024 * 1024;
    total_flexible_size = 448 * 1024 * 1024;
    flexible_usage = 0;
  })
]

unfoldable pub available_flexible_size : MemoryManager → ℕ
available_flexible_size self = sub64 self.total_flexible_size self.flexible_usage

unfoldable pub allocate_direct_memory :
    MemoryManager → PAddr → PAddr → ℕ → ℕ → ℤ → MemoryManager × Option PAddr
allocate_direct_memory self search_start search_end size alignment memory_type =
    let aligned_size = align_up size page_size in
    let (physical, result) =
      Physical.allocate self.physical search_start search_end aligned_size alignment in
    (record self { physical = physical }, result)

-- The loop of `find_free_region`; `none` is its error.
unfoldable pub find_free_region : Vmas → ℕ → ℕ → Option VAddr
find_free_region [] size alignment = none
find_free_region ((_, vma) ∷ rest) size alignment =
    let aligned_base = align_up vma.base alignment in
    if is_free vma && leb (add64 aligned_base size) (add64 vma.base vma.size)
    then some aligned_base
    else find_free_region rest size alignment

-- The keys below `end` whose areas overlap the range.
unfoldable pub overlapping : Vmas → VAddr → ℕ → List VAddr
overlapping [] addr size = []
overlapping ((base, vma) ∷ rest) addr size =
    if ltb base (add64 addr size) && overlaps vma addr size
    then base ∷ overlapping rest addr size
    else overlapping rest addr size

-- What the loop of `carve_vma` puts back for an area that it has removed.
abbrev pub put_back : VirtualMemoryArea → Vmas → VAddr → ℕ → Vmas
put_back vma vmas addr size =
    let end = add64 addr size in
    let before =
      if ltb vma.base addr
      then insert vma.base (record vma { size = sub64 addr vma.base }) vmas
      else vmas in
    let vma_end = add64 vma.base vma.size in
    if ltb end vma_end
    then insert end (record vma { base = end; size = sub64 vma_end end }) before
    else before

-- The loop of `carve_vma`. Each key is listed once and only its own round removes it, so that the `unwrap`
-- of the code meets no missing key.
unfoldable pub carve_keys : List VAddr → Vmas → VAddr → ℕ → Vmas
carve_keys [] vmas addr size = vmas
carve_keys (base ∷ bases) vmas addr size = elim (get base vmas) [
  | none ↦ vmas
  | some vma ↦ carve_keys bases (put_back vma (remove base vmas) addr size) addr size
]

unfoldable pub carve_vma : Vmas → VAddr → ℕ → Vmas
carve_vma vmas addr size = carve_keys (overlapping vmas addr size) vmas addr size

-- The address that `map_memory` maps at.
abbrev pub target : MemoryManager → VAddr → ℕ → ℕ → Option VAddr
target self virtual_addr aligned_size flags =
    if virtual_addr == 0 || not (has_flags flags MemoryMapFlags.fixed)
    then find_free_region self.vma_map aligned_size page_size
    else some virtual_addr

-- `MemoryManager::map_memory`; `none` is an error.
unfoldable pub map_memory :
    Libc → MemoryManager → VAddr → ℕ → ℕ → ℕ → VmaType → String → MemoryManager × Option VAddr
map_memory libc self virtual_addr size prot flags vma_type name =
    let aligned_size = align_up size page_size in
    elim (target self virtual_addr aligned_size flags) [
      | none ↦ (self, none)
      | some addr ↦
          elim (AddressSpace.map libc addr aligned_size 0 (has_flags prot MemoryProt.cpu_exec)) [
            | none ↦ (self, none)
            | some _ ↦ (
              record self {
                vma_map =
                    insert addr
                      (record {
                        base = addr;
                        size = aligned_size;
                        vma_type = vma_type;
                        prot = prot;
                        name = name;
                        disallow_merge = has_flags flags MemoryMapFlags.no_coalesce;
                      })
                      (carve_vma self.vma_map addr aligned_size);
              },
              some addr,
            )
          ]
    ]

-- `MemoryManager::unmap_memory`; false is an error.
unfoldable pub unmap_memory : Libc → MemoryManager → VAddr → ℕ → MemoryManager × Bool
unmap_memory libc self virtual_addr size =
    let aligned_size = align_up size page_size in
    elim (AddressSpace.unmap libc virtual_addr aligned_size) [
      | false ↦ (self, false)
      | true ↦ (
        record self {
          vma_map =
              insert virtual_addr (free_area virtual_addr aligned_size)
                (carve_vma self.vma_map virtual_addr aligned_size);
        },
        true,
      )
    ]

-- `MemoryManager::protect_memory`
unfoldable pub protect_memory : Libc → MemoryManager → VAddr → ℕ → ℕ → Bool
protect_memory libc self addr size prot =
    AddressSpace.protect libc addr size (has_flags prot MemoryProt.cpu_read)
      (has_flags prot MemoryProt.cpu_write) (has_flags prot MemoryProt.cpu_exec)

unfoldable pub is_valid_gpu_mapping : VAddr → ℕ → Bool
is_valid_gpu_mapping virtual_addr size = ltb (add64 virtual_addr size) max_gpu_address
