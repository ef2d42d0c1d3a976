-- ===== src/Kernel/MemorySyscalls/Outcome.antt =====
-- What the memory system calls answer, and what they leave alone (crates/core/src/kernel/memory_syscalls.rs).
use anotherps4_emulator.Common.{
  ℕ, ◌+◌, ◌%◌, ◌≤◌, ◌<◌, ◌^◌, ◌≡◌, ◌≢◌, ◌⊎◌, max, none, some, arith, bit_and,
}
use anotherps4_emulator.Common.Int.{ℤ}
use anotherps4_emulator.Types.{VAddr, PAddr, page_size, align_up}
use anotherps4_emulator.Types.Align.{is_aligned_page, align_up_page}
use anotherps4_emulator.Kernel.Error.{orbis_ok, einval, enomem}
use anotherps4_emulator.Memory.MemoryProt
use anotherps4_emulator.Memory.MemoryMapFlags
use anotherps4_emulator.Memory.AddressSpace.{Libc}
use anotherps4_emulator.Memory.Vma.{VmaType, has_flags}
use anotherps4_emulator.Memory.Physical.Tiles.{IsTiled}
use anotherps4_emulator.Memory.Physical.Refine.{Allocates, allocate_refines}
use anotherps4_emulator.Memory.Virtual.{MemoryManager, allocate_direct_memory}
use anotherps4_emulator.Memory.Virtual.Mapping.{IsOrdered, Remaps, map_memory_refines}
use anotherps4_emulator.Kernel.MemorySyscalls.{
  sce_kernel_allocate_direct_memory, sce_kernel_map_direct_memory,
}

enomem-ne-ok : enomem ≢ orbis_ok
enomem-ne-ok e = cc e

einval-ne-ok : einval ≢ orbis_ok
einval-ne-ok e = cc e

-- The allocating call answers EINVAL and changes nothing only for a length that is 0 or no multiple of
-- the page size; for every other length it answers ENOMEM and leaves the out parameter when the
-- allocator has no address, and OK with the address when it has one.
pub sce_kernel_allocate_direct_memory_lem :
    (memory : MemoryManager) (search_start search_end : PAddr) (len alignment : ℕ) (memory_type : ℤ)
    (out : PAddr)
    → let call =
        sce_kernel_allocate_direct_memory memory search_start search_end len alignment memory_type
          out in
      let inner = allocate_direct_memory memory search_start search_end len alignment memory_type in
      (call ≡ (memory, out, einval)) × ((len ≡ 0) ⊎ (len % page_size ≢ 0))
      ⊎ (0 < len)
        × (len % page_size ≡ 0)
        × (call.0 ≡ inner.0)
        × ((inner.1 ≡ none) × (call.1 ≡ out) × (call.2 ≡ enomem)
            ⊎ (inner.1 ≡ some call.1) × (call.2 ≡ orbis_ok))
unfolding sce_kernel_allocate_direct_memory
sce_kernel_allocate_direct_memory_lem memory search_start search_end len alignment memory_type out =
    ground (arith, is_aligned_page len)

align_up_self :
    (len : ℕ) → len % page_size ≡ 0 → len + page_size ≤ 2 ^ 64 → align_up len page_size ≡ len
align_up_self len h room = omega (arith, align_up_page len room)

-- On a tiled memory, for an alignment whose maximum with the page size is a power of two and sums that
-- stay below 2 ^ 64: when the allocating system call answers OK, the allocator has allocated len bytes
-- at the address that it writes out, which were free, and has left every other address alone.
pub sce_kernel_allocate_direct_memory_refines :
    (memory memory' : MemoryManager) (search_start search_end : PAddr) (len alignment : ℕ)
    (memory_type : ℤ) (out out' : PAddr) (k : ℕ)
    → IsTiled memory.physical
    → max alignment page_size ≡ 2 ^ k
    → k < 64
    → search_start + 2 ^ k + len ≤ 2 ^ 64
    → memory.physical.total_size + 2 ^ k + len ≤ 2 ^ 64
    → len + page_size ≤ 2 ^ 64
    → sce_kernel_allocate_direct_memory memory search_start search_end len alignment memory_type out
      ≡ (memory', out', orbis_ok)
    → Allocates memory.physical memory'.physical search_start search_end len (2 ^ k) out'
unfolding allocate_direct_memory
sce_kernel_allocate_direct_memory_refines memory memory' search_start search_end len alignment
      memory_type out out' k valid power small start_room room len_room h =
    let inner = allocate_direct_memory memory search_start search_end len alignment memory_type in
    let cases =
      sce_kernel_allocate_direct_memory_lem memory search_start search_end len alignment memory_type
        out in
    let good : (0 < len) × (len % page_size ≡ 0) × (memory' ≡ inner.0) × (inner.1 ≡ some out') =
      ground (arith, cases, einval-ne-ok, enomem-ne-ok) in
    let aligned : align_up len page_size ≡ len = align_up_self len good.1 len_room in
    rw good.2 (
      rw aligned (
        allocate_refines memory.physical search_start search_end len alignment k valid power small
          good.0 start_room room out' (rw aligned at good.3)))

-- On ordered areas, for a positive length and a range that ends below 2 ^ 64: when a direct mapping
-- answers OK, the pages at the address that it writes out are a direct area with the known bits of the
-- protection, and no other address has changed.
pub sce_kernel_map_direct_memory_refines :
    (libc : Libc) (memory memory' : MemoryManager) (addr addr' : VAddr) (len prot flags : ℕ)
    (start : PAddr) (alignment : ℕ)
    → IsOrdered memory
    → 0 < len
    → len + page_size ≤ 2 ^ 64
    → sce_kernel_map_direct_memory libc memory addr len prot flags start alignment
      ≡ (memory', addr', orbis_ok)
    → addr' + align_up len page_size < 2 ^ 64
    → Remaps memory memory' addr' (align_up len page_size) (
      VmaType.direct,
      bit_and prot MemoryProt.all_bits,
      "direct",
      has_flags (bit_and flags MemoryMapFlags.all_bits) MemoryMapFlags.no_coalesce,
    )
unfolding sce_kernel_map_direct_memory
sce_kernel_map_direct_memory_refines libc memory memory' addr addr' len prot flags start alignment o
      p room h top =
    map_memory_refines libc memory addr len o p room (bit_and prot MemoryProt.all_bits)
      (bit_and flags MemoryMapFlags.all_bits) VmaType.direct "direct" memory' addr'
      (ground (arith, enomem-ne-ok)) top
