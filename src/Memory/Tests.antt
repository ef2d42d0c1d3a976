-- ===== src/Memory/Tests.antt =====
-- Runs of the allocators (crates/core/src/memory), and their theorems at concrete memories.
use anotherps4_emulator.Common.{
  ◌≡◌, ◌↔◌, ◌^◌, refl, [], ◌∷◌, none, some, true, false, if◌then◌else◌, arith, ℕ,
}
use anotherps4_emulator.Common.Int.{pos, ℤ}
use anotherps4_emulator.Types.{PAddr, align_up}
use anotherps4_emulator.Memory.Physical.{
  PhysicalMemoryArea, PhysicalMemoryManager, PhysicalMemoryType, free_memory, allocated, first_fit,
  containing, carve_area, allocate, can_merge_with, merge_pair, merge_keys, merge_adjacent, free,
}
use anotherps4_emulator.Memory.Physical.Tiles.{IsTiled, state_at, within}
use anotherps4_emulator.Memory.Physical.Refine.{
  Allocates, allocate-IsTiled, allocate_refines, allocate_complete,
}
use anotherps4_emulator.Memory.Physical.Merge.{merges_early}
use anotherps4_emulator.Memory.Physical.Free.{freed, free_panics_iff, free_refines, free_panics_at}

abbrev area : PAddr → ℕ → PhysicalMemoryType → PhysicalMemoryArea
area base size t = record { base = base; size = size; memory_type = pos 0; dma_type = t }

-- A free area between two allocated ones.
abbrev memory : PhysicalMemoryManager
memory = record {
  areas =
      (0, area 0 0x10000 allocated)
      ∷ (0x10000, area 0x10000 0x10000 free_memory)
      ∷ (0x20000, area 0x20000 0x20000 allocated)
      ∷ [];
  total_size = 0x40000;
}

memory-IsTiled : IsTiled memory
memory-IsTiled = ground arith

abbrev full : PhysicalMemoryManager
full = record {
  areas =
      (0, area 0 0x10000 allocated)
      ∷ (0x10000, area 0x10000 0x4000 allocated)
      ∷ (0x14000, area 0x14000 0xC000 free_memory)
      ∷ (0x20000, area 0x20000 0x20000 allocated)
      ∷ [];
  total_size = 0x40000;
}

allocate_run : allocate memory 0 0x40000 0x4000 0 ≡ (full, some 0x10000)
unfolding allocate first_fit containing carve_area align_up
allocate_run = refl

-- What freeing the last area leaves.
abbrev merged : PhysicalMemoryManager
merged = record memory {
  areas = (0, area 0 0x10000 allocated) ∷ (0x10000, area 0x10000 0x30000 free_memory) ∷ [];
}

free_runs :
    (free memory 0 0x10000 ≡ none)
    × (free memory 0x20000 0x20000 ≡ some (merged, true))
    × (free memory 0x20000 0x4000 ≡ some (memory, false))
unfolding free merge_pair merge_keys merge_adjacent can_merge_with
free_runs = (refl, refl, refl)

allocate-IsTiled_example : IsTiled (allocate memory 0 0x40000 0x4000 0).0
allocate-IsTiled_example =
    allocate-IsTiled memory 0 0x40000 0x4000 0 14 memory-IsTiled refl (omega arith) (omega arith)
      (omega arith) (omega arith)

allocate_refines_example :
    Allocates memory (allocate memory 0 0x40000 0x4000 0).0 0 0x40000 0x4000 (2 ^ 14) 0x10000
allocate_refines_example =
    allocate_refines memory 0 0x40000 0x4000 0 14 memory-IsTiled refl (omega arith) (omega arith)
      (omega arith) (omega arith) 0x10000 (rw (allocate_run) refl)

allocate_complete_example : (addr : PAddr) × ((allocate memory 0 0x40000 0x4000 0).1 ≡ some addr)
allocate_complete_example =
    allocate_complete memory 0 0x40000 0x4000 0 14 memory-IsTiled refl (omega arith) (omega arith)
      (omega arith) (omega arith) ((0, area 0 0x10000 allocated) ∷ []) 0x10000
      (area 0x10000 0x10000 free_memory) ((0x20000, area 0x20000 0x20000 allocated) ∷ []) 0x14000
      refl refl (omega arith) (omega arith) (omega arith) (omega arith) (omega arith)

free_panics_iff_example : (free memory 0 0x10000 ≡ none) ↔ (merges_early (freed memory 0) ≡ true)
free_panics_iff_example =
    free_panics_iff memory 0 0x10000 memory-IsTiled (area 0 0x10000 allocated) refl refl

free_refines_example :
    IsTiled merged
    × (t : ℤ) × ((x : PAddr)
        → state_at merged.areas x
          ≡ (if within 0x20000 0x20000 x then some (t, free_memory) else state_at memory.areas x))
free_refines_example = free_refines memory 0x20000 0x20000 memory-IsTiled merged free_runs.1

free_panics_at_example : free memory 0 0x10000 ≡ none
free_panics_at_example =
    free_panics_at memory [] (0, area 0 0x10000 allocated)
      (0x10000, area 0x10000 0x10000 free_memory) (0x20000, area 0x20000 0x20000 allocated) []
      memory-IsTiled refl refl refl
