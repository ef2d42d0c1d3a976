-- ===== src/Kernel/Tests.antt =====
-- Runs of the kernel's services (crates/core/src/kernel), and their theorems at concrete states.
use anotherps4_emulator.Common.{
  ℕ, ◌+◌, ◌%◌, ◌<◌, ◌≡◌, ◌≢◌, ◌⊎◌, ◌^◌, refl, [], ◌∷◌, ◌++◌, List, none, some, true, false, arith,
  length, bit_and,
}
use anotherps4_emulator.Common.Int.{pos, as_u32}
use anotherps4_emulator.Types.{page_size, align_up, is_aligned}
use anotherps4_emulator.Kernel.Error.{orbis_ok, einval, enomem}
use anotherps4_emulator.Kernel.MemorySyscalls.{
  sce_kernel_allocate_direct_memory, sce_kernel_map_direct_memory,
}
use anotherps4_emulator.Kernel.MemorySyscalls.Outcome.{
  sce_kernel_allocate_direct_memory_lem, sce_kernel_allocate_direct_memory_refines,
  sce_kernel_map_direct_memory_refines,
}
use anotherps4_emulator.Kernel.EventQueue.{Event, EventQueue, drain, wait}
use anotherps4_emulator.Kernel.EventQueue.Fifo.{Action, trigger, fetch, run, triggered, run_fifo}
use anotherps4_emulator.Kernel.Threading.{ThreadManager, default_attr}
use anotherps4_emulator.Kernel.Threading.Ids.{IsFresh, create_all, create_all_distinct}
use anotherps4_emulator.Memory.AddressSpace
use anotherps4_emulator.Memory.AddressSpace.{AddressSpace, Libc}
use anotherps4_emulator.Memory.MemoryMapFlags
use anotherps4_emulator.Memory.MemoryProt
use anotherps4_emulator.Memory.Physical.{
  PhysicalMemoryManager, allocate, first_fit, containing, carve_area, allocated, free_memory,
}
use anotherps4_emulator.Memory.Physical.Tiles.{IsTiled}
use anotherps4_emulator.Memory.Physical.Refine.{Allocates}
use anotherps4_emulator.Memory.Vma.{VmaType, has_flags}
use anotherps4_emulator.Memory.Virtual.{
  MemoryManager, free_area, allocate_direct_memory, map_memory, find_free_region, overlapping,
  carve_keys, carve_vma,
}
use anotherps4_emulator.Memory.Virtual.Mapping.{Remaps}

abbrev host : Libc
host = record {
  mmap = λ addr size prot fixed. some addr;
  munmap = λ addr size. true;
  mprotect = λ addr size prot. true;
}

abbrev space : AddressSpace
space = record {
  backing_base = 0x1000_0000;
  backing_size = 0x10_0000;
  system_managed_base = 0x2000_0000;
  system_managed_size = 0x10_0000;
  system_reserved_base = 0x3000_0000;
  system_reserved_size = 0x10_0000;
  user_base = 0x10_0000;
  user_region_size = 0x10_0000;
}

abbrev direct : PhysicalMemoryManager
direct = record {
  areas =
      (0, record { base = 0; size = 0x10_0000; memory_type = pos 0; dma_type = free_memory }) ∷ [];
  total_size = 0x10_0000;
}

abbrev memory : MemoryManager
memory = record {
  address_space = space;
  physical = direct;
  vma_map = (0x10_0000, free_area 0x10_0000 0x10_0000) ∷ [];
  total_direct_size = 0x10_0000;
  total_flexible_size = 0;
  flexible_usage = 0;
}

direct-IsTiled : IsTiled direct
direct-IsTiled = ground arith

abbrev memory_allocated : MemoryManager
memory_allocated = record memory {
  physical = record direct {
    areas =
        (0, record { base = 0; size = 0x4000; memory_type = pos 0; dma_type = allocated })
        ∷ (
          0x4000,
          record { base = 0x4000; size = 0xF_C000; memory_type = pos 0; dma_type = free_memory },
        )
        ∷ [];
  };
}

sce_kernel_allocate_direct_memory_run :
    sce_kernel_allocate_direct_memory memory 0 0x10_0000 0x4000 0 (pos 0) 7
    ≡ (memory_allocated, 0, orbis_ok)
unfolding sce_kernel_allocate_direct_memory allocate_direct_memory is_aligned align_up allocate
    first_fit containing carve_area
sce_kernel_allocate_direct_memory_run = refl

-- Not a multiple of the page size.
abbrev short_len : ℕ
short_len = 100

sce_kernel_allocate_direct_memory_lem_example :
    let call = sce_kernel_allocate_direct_memory memory 0 0x10_0000 short_len 0 (pos 0) 7 in
    let inner = allocate_direct_memory memory 0 0x10_0000 short_len 0 (pos 0) in
    (call ≡ (memory, 7, einval)) × ((short_len ≡ 0) ⊎ (short_len % page_size ≢ 0))
    ⊎ (0 < short_len)
      × (short_len % page_size ≡ 0)
      × (call.0 ≡ inner.0)
      × ((inner.1 ≡ none) × (call.1 ≡ 7) × (call.2 ≡ enomem)
          ⊎ (inner.1 ≡ some call.1) × (call.2 ≡ orbis_ok))
sce_kernel_allocate_direct_memory_lem_example =
    sce_kernel_allocate_direct_memory_lem memory 0 0x10_0000 short_len 0 (pos 0) 7

sce_kernel_allocate_direct_memory_refines_example :
    Allocates direct memory_allocated.physical 0 0x10_0000 0x4000 (2 ^ 14) 0
sce_kernel_allocate_direct_memory_refines_example =
    sce_kernel_allocate_direct_memory_refines memory memory_allocated 0 0x10_0000 0x4000 0 (pos 0) 7
      0 14 direct-IsTiled refl (omega arith) (omega arith) (omega arith) (omega arith)
      sce_kernel_allocate_direct_memory_run

abbrev memory_mapped : MemoryManager
memory_mapped = record memory {
  vma_map =
      (
        0x10_0000,
        record {
          base = 0x10_0000;
          size = 0x4000;
          vma_type = VmaType.direct;
          prot = 3;
          name = "direct";
          disallow_merge = false;
        },
      )
      ∷ (0x10_4000, free_area 0x10_4000 0xF_C000)
      ∷ [];
}

sce_kernel_map_direct_memory_run :
    sce_kernel_map_direct_memory host memory 0 0x4000 3 0 0 0 ≡ (memory_mapped, 0x10_0000, orbis_ok)
unfolding sce_kernel_map_direct_memory map_memory find_free_region carve_vma carve_keys overlapping
    align_up AddressSpace.map
sce_kernel_map_direct_memory_run = refl

sce_kernel_map_direct_memory_refines_example :
    Remaps memory memory_mapped 0x10_0000 (align_up 0x4000 page_size) (
      VmaType.direct,
      bit_and 3 MemoryProt.all_bits,
      "direct",
      has_flags (bit_and 0 MemoryMapFlags.all_bits) MemoryMapFlags.no_coalesce,
    )
unfolding align_up
sce_kernel_map_direct_memory_refines_example =
    sce_kernel_map_direct_memory_refines host memory memory_mapped 0 0x10_0000 0x4000 3 0 0 0
      (ground arith) (omega arith) (omega arith) sce_kernel_map_direct_memory_run (omega arith)

abbrev event : ℕ → Event
event n = record { ident = n; filter = pos 0; flags = 0; fflags = 0; event_data = pos 0; udata = 0 }

abbrev queue : EventQueue
queue = record { name = "flip"; events = event 1 ∷ event 2 ∷ event 3 ∷ [] }

wait_run : wait queue 2 none [] ≡ (record queue { events = event 3 ∷ [] }, event 1 ∷ event 2 ∷ [])
unfolding wait drain
wait_run = refl

abbrev actions : List Action
actions = fetch 1 ∷ trigger (event 4) ∷ fetch 2 ∷ []

run_fifo_example :
    (run actions queue).1 ++ (run actions queue).0.events ≡ queue.events ++ triggered actions
run_fifo_example = run_fifo actions queue

abbrev threads : ThreadManager
threads = record { next_id = 1; threads = [] }

create_all_distinct_example :
    IsFresh (create_all (default_attr ∷ default_attr ∷ []) threads)
    × (length (create_all (default_attr ∷ default_attr ∷ []) threads).threads
        ≡ length threads.threads + 2)
create_all_distinct_example =
    create_all_distinct (default_attr ∷ default_attr ∷ []) threads (ground arith) (omega arith)

-- `ORBIS_KERNEL_ERROR_EPERM` is 0x8001FFFF as a bit pattern.
-- The comments of the constants say 0x8002000C and 0x80020016.
enomem_bits : as_u32 enomem ≡ 0x8001_FFF4
enomem_bits = refl

einval_bits : as_u32 einval ≡ 0x8001_FFEA
einval_bits = refl
