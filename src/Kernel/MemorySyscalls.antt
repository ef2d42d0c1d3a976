-- ===== src/Kernel/MemorySyscalls.antt =====
-- crates/core/src/kernel/memory_syscalls.rs: the memory system calls. An out parameter is an argument with
-- the old value, and its new value stands in the result before the returned code.
pub mod Outcome
use anotherps4_emulator.Common.{
  ℕ, ◌+◌, Bool, true, false, ◌||◌, not, ◌==◌, if◌then◌else◌, Option, none, some, bit_and, bit_or,
}
use anotherps4_emulator.Common.Int.{ℤ}
use anotherps4_emulator.Types.{VAddr, PAddr, page_size, is_aligned, align_down, add64}
use anotherps4_emulator.Kernel.Error.{orbis_ok, einval, enomem}
use anotherps4_emulator.Memory.MemoryProt
use anotherps4_emulator.Memory.MemoryMapFlags
use anotherps4_emulator.Memory.AddressSpace.{Libc}
use anotherps4_emulator.Memory.Vma.{VmaType}
use anotherps4_emulator.Memory.Virtual.{
  MemoryManager, allocate_direct_memory, map_memory, unmap_memory,
}
use Prim.Native.String.{String}

unfoldable pub sce_kernel_allocate_direct_memory :
    MemoryManager → PAddr → PAddr → ℕ → ℕ → ℤ → PAddr → MemoryManager × PAddr × ℤ
sce_kernel_allocate_direct_memory memory search_start search_end len alignment memory_type
      phys_addr_out =
    if len == 0 || not (is_aligned len page_size)
    then (memory, phys_addr_out, einval)
    else let (memory', result) =
        allocate_direct_memory memory search_start search_end len alignment memory_type in
      elim result [
        | some addr ↦ (memory', addr, orbis_ok)
        | none ↦ (memory', phys_addr_out, enomem)
      ]

-- Both mapping calls, which differ in the type and the name of the area.
abbrev map_with :
    Libc → MemoryManager → VAddr → ℕ → ℕ → ℕ → VmaType → String → MemoryManager × VAddr × ℤ
map_with libc memory addr len prot flags vma_type name =
    let mem_prot = bit_and prot MemoryProt.all_bits in
    let mem_flags = bit_and flags MemoryMapFlags.all_bits in
    let (memory', result) = map_memory libc memory addr len mem_prot mem_flags vma_type name in
    elim result [
      | some mapped_addr ↦ (memory', mapped_addr, orbis_ok)
      | none ↦ (memory', addr, enomem)
    ]

unfoldable pub sce_kernel_map_direct_memory :
    Libc → MemoryManager → VAddr → ℕ → ℕ → ℕ → PAddr → ℕ → MemoryManager × VAddr × ℤ
sce_kernel_map_direct_memory libc memory addr len prot flags direct_memory_start alignment =
    map_with libc memory addr len prot flags VmaType.direct "direct"

unfoldable pub sce_kernel_map_flexible_memory :
    Libc → MemoryManager → VAddr → ℕ → ℕ → ℕ → MemoryManager × VAddr × ℤ
sce_kernel_map_flexible_memory libc memory addr len prot flags =
    map_with libc memory addr len prot flags VmaType.flexible "flexible"

unfoldable pub sce_kernel_munmap : Libc → MemoryManager → VAddr → ℕ → MemoryManager × ℤ
sce_kernel_munmap libc memory addr len =
    let (memory', done) = unmap_memory libc memory addr len in
    (memory', if done then orbis_ok else einval)

-- The start, the end and the protection that the query writes, and its code.
unfoldable pub sce_kernel_query_memory_protection : VAddr → VAddr × VAddr × ℕ × ℤ
sce_kernel_query_memory_protection addr =
    let start = align_down addr page_size in
    (start, add64 start page_size, bit_or MemoryProt.cpu_read MemoryProt.cpu_write, orbis_ok)
