-- ===== src/Memory/Virtual/Tests.antt =====
-- Runs of the virtual memory manager (crates/core/src/memory/virtual_memory.rs), and its theorems at a
-- concrete memory.
use anotherps4_emulator.Common.{◌≤◌, ◌≡◌, refl, [], ◌∷◌, none, some, true, false, arith}
use anotherps4_emulator.Types.{VAddr, page_size, align_up}
use anotherps4_emulator.Memory.AddressSpace
use anotherps4_emulator.Memory.AddressSpace.{AddressSpace, Libc, mmap_anonymous, mmap_reserve}
use anotherps4_emulator.Memory.MemoryMapFlags
use anotherps4_emulator.Memory.MemoryProt
use anotherps4_emulator.Memory.Physical
use anotherps4_emulator.Memory.Vma.{VmaType, VirtualMemoryArea, has_flags}
use anotherps4_emulator.Memory.Virtual.{
  MemoryManager, free_area, find_free_region, overlapping, carve_keys, carve_vma, map_memory,
  unmap_memory,
}
use anotherps4_emulator.Memory.Virtual.Mapping.{
  IsOrdered, Remaps, map_memory_refines, unmap_memory_refines,
}
use anotherps4_emulator.Memory.Virtual.FreeRegion.{
  IsFreeRange, find_free_region_sound, find_free_region_complete,
}

-- A host that maps where it is asked to, and one that never does.
abbrev host : Libc
host = record {
  mmap = λ addr size prot fixed. some addr;
  munmap = λ addr size. true;
  mprotect = λ addr size prot. true;
}

abbrev broken_host : Libc
broken_host = record {
  mmap = λ addr size prot fixed. none;
  munmap = λ addr size. false;
  mprotect = λ addr size prot. false;
}

abbrev space : AddressSpace
space = record {
  backing_base = 0x1000_0000;
  backing_size = 0x10_0000;
  system_managed_base = 0x2000_0000;
  system_managed_size = 0x10_0000;
  system_reserved_base = 0x3000_0000;
  system_reserved_size = 0x10_0000;
  user_base = 0x10_0000;
  user_region_size = 0x10_0000;
}

abbrev stack_area : VirtualMemoryArea
stack_area = record {
  base = 0x10_0000;
  size = 0x1_0000;
  vma_type = VmaType.stack;
  prot = 3;
  name = "stack";
  disallow_merge = false;
}

-- A stack, and free memory behind it.
abbrev memory : MemoryManager
memory = record {
  address_space = space;
  physical = Physical.new 0x10_0000;
  vma_map = (0x10_0000, stack_area) ∷ (0x11_0000, free_area 0x11_0000 0xF_0000) ∷ [];
  total_direct_size = 0x10_0000;
  total_flexible_size = 0;
  flexible_usage = 0;
}

memory-IsOrdered : IsOrdered memory
memory-IsOrdered = ground arith

-- The page at 0x11_4000 is mapped; what was free is split in three.
abbrev code_area : VirtualMemoryArea
code_area = record {
  base = 0x11_4000;
  size = 0x4000;
  vma_type = VmaType.code;
  prot = 5;
  name = "eboot";
  disallow_merge = false;
}

abbrev mapped : MemoryManager
mapped = record memory {
  vma_map =
      (0x10_0000, stack_area)
      ∷ (0x11_0000, free_area 0x11_0000 0x4000)
      ∷ (0x11_4000, code_area)
      ∷ (0x11_8000, free_area 0x11_8000 0xE_8000)
      ∷ [];
}

map_memory_run :
    map_memory host memory 0x11_4000 100 5 MemoryMapFlags.fixed VmaType.code "eboot"
    ≡ (mapped, some 0x11_4000)
unfolding map_memory carve_vma carve_keys overlapping align_up AddressSpace.map
map_memory_run = refl

map_memory_refines_example :
    Remaps memory mapped 0x11_4000
      (align_up 100 page_size)
      (VmaType.code, 5, "eboot", has_flags MemoryMapFlags.fixed MemoryMapFlags.no_coalesce)
unfolding align_up
map_memory_refines_example =
    map_memory_refines host memory 0x11_4000 100 memory-IsOrdered (omega arith) (omega arith) 5
      MemoryMapFlags.fixed VmaType.code "eboot" mapped 0x11_4000 map_memory_run (omega arith)

abbrev unmapped : MemoryManager
unmapped = record memory {
  vma_map =
      (0x10_0000, record stack_area { size = 0xC000 })
      ∷ (0x10_C000, free_area 0x10_C000 0x8000)
      ∷ (0x11_4000, free_area 0x11_4000 0xE_C000)
      ∷ [];
}

unmap_memory_run : unmap_memory host memory 0x10_C000 0x8000 ≡ (unmapped, true)
unfolding unmap_memory carve_vma carve_keys overlapping align_up AddressSpace.unmap
unmap_memory_run = refl

unmap_memory_refines_example :
    Remaps memory unmapped 0x10_C000
      (align_up 0x8000 page_size)
      (VmaType.free, MemoryProt.none_bits, "", false)
unfolding align_up
unmap_memory_refines_example =
    unmap_memory_refines host memory 0x10_C000 0x8000 memory-IsOrdered (omega arith) (omega arith)
      unmapped unmap_memory_run (omega arith)

broken_run : unmap_memory broken_host memory 0x10_C000 0x8000 ≡ (memory, false)
unfolding unmap_memory align_up AddressSpace.unmap
broken_run = refl

find_free_region_run : find_free_region memory.vma_map 0x4000 page_size ≡ some 0x11_0000
unfolding find_free_region align_up
find_free_region_run = refl

find_free_region_sound_example : IsFreeRange memory.vma_map 0x4000 0x11_0000 × (0 ≤ 0x11_0000)
find_free_region_sound_example =
    find_free_region_sound 0x4000 0 memory.vma_map 0x11_0000 memory-IsOrdered (ground arith)
      find_free_region_run

find_free_region_complete_example :
    (addr : VAddr) × (find_free_region memory.vma_map 0x4000 page_size ≡ some addr)
    × (addr ≤ 0x11_4000)
find_free_region_complete_example =
    find_free_region_complete 0x4000 ((0x10_0000, stack_area) ∷ []) 0x11_0000
      (free_area 0x11_0000 0xF_0000) [] 0x11_4000 memory-IsOrdered (ground arith) refl (omega arith)
      (omega arith) (omega arith)
