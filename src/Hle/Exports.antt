-- ===== src/Hle/Exports.antt =====
-- crates/core/src/hle/exports.rs: the exported functions on memory and strings, and the helper that allocates. An
-- exported function takes the registers of its arguments, and gives its answer and the bytes behind the call.
pub mod Strings
mod Tests
use anotherps4_emulator.Common.{
  ℕ, zero, suc, ◌+◌, ◌-◌, ◌%◌, ◌^◌, List, [], ◌∷◌, ◌++◌, Option, none, some, Bool, true, false,
  ◌&&◌, ◌||◌, ◌==◌, ltb, leb, bit_or, if◌then◌else◌,
}
use anotherps4_emulator.Types.{VAddr, PAddr, add64}
use anotherps4_emulator.Memory.MemoryProt
use anotherps4_emulator.Memory.MemoryMapFlags
use anotherps4_emulator.Memory.AddressSpace.{Libc}
use anotherps4_emulator.Memory.Vma.{VmaType}
use anotherps4_emulator.Memory.Virtual.{MemoryManager, map_memory}
use anotherps4_emulator.Hle.Bytes.{Bytes, write, store, fetch, copy}
use Prim.Native.String.{String}

pub record PhysMappingEntry : Type 0 where
  pub phys_start : PAddr
  pub virt_start : VAddr
  pub size : ℕ

-- The mappings behind the lock are there from `initialize_exports` on.
unfoldable pub register_phys_mapping :
    PAddr → VAddr → ℕ → Option (List PhysMappingEntry) → Option (List PhysMappingEntry)
register_phys_mapping phys virt_addr size none = none
register_phys_mapping phys virt_addr size (some mappings) =
    some (mappings ++ record { phys_start = phys; virt_start = virt_addr; size = size } ∷ [])

unfoldable pub find_mapping : PAddr → List PhysMappingEntry → Option VAddr
find_mapping phys [] = none
find_mapping phys (entry ∷ mappings) =
    if leb entry.phys_start phys && ltb phys (add64 entry.phys_start entry.size)
    then some (add64 entry.virt_start (phys - entry.phys_start))
    else find_mapping phys mappings

unfoldable pub phys_to_virt : PAddr → Option (List PhysMappingEntry) → Option VAddr
phys_to_virt phys none = none
phys_to_virt phys (some mappings) = find_mapping phys mappings

unfoldable pub alloc_memory :
    Libc → ℕ → String → Option MemoryManager → VAddr × Option MemoryManager
alloc_memory libc len name none = (0, none)
alloc_memory libc len name (some memory) =
    let (memory', mapped) =
      map_memory libc memory 0 len MemoryProt.cpu_rw
        (bit_or MemoryMapFlags.anonymous MemoryMapFlags.private_map) VmaType.flexible name in
    (elim mapped [ none ↦ 0 | some addr ↦ addr ], some memory')

-- `"malloc" | "_Znwm"`
unfoldable pub malloc : Libc → ℕ → Option MemoryManager → VAddr × Option MemoryManager
malloc libc rdi memory = alloc_memory libc (if rdi == 0 then 4096 else rdi) "heap_alloc" memory

-- `"__cxa_guard_acquire"` and `"__cxa_guard_release"`
unfoldable pub cxa_guard_acquire : ℕ → Bytes → ℕ × Bytes
cxa_guard_acquire rdi bytes =
    if rdi == 0
    then (0, bytes)
    else if fetch 8 rdi bytes == 0
    then (1, store 8 rdi 1 bytes)
    else (0, bytes)

unfoldable pub cxa_guard_release : ℕ → Bytes → ℕ × Bytes
cxa_guard_release rdi bytes = if rdi == 0 then (0, bytes) else (0, write bytes rdi 1)

-- The `n` bytes at an address.
unfoldable pub slice_at : ℕ → ℕ → Bytes → List ℕ
slice_at zero at bytes = []
slice_at (suc n) at bytes = bytes at ∷ slice_at n (at + 1) bytes

-- `"memcpy"`
unfoldable pub memcpy : ℕ → ℕ → ℕ → Bytes → ℕ × Bytes
memcpy rdi rsi rdx bytes =
    if rdi == 0 || rsi == 0 then (rdi, bytes) else (rdi, copy (slice_at rdx rsi bytes) rdi bytes)

unfoldable pub fill : ℕ → ℕ → ℕ → Bytes → Bytes
fill zero at val bytes = bytes
fill (suc n) at val bytes = fill n (at + 1) val (write bytes at val)

-- `"memset"`
unfoldable pub memset : ℕ → ℕ → ℕ → Bytes → ℕ × Bytes
memset rdi rsi rdx bytes =
    if rdi == 0 then (rdi, bytes) else (rdi, fill rdx rdi (rsi % 2 ^ 8) bytes)

-- The loops of `"strcpy"` and `"strcat"` make at most this many turns.
abbrev pub string_limit : ℕ
string_limit = 0x10_0001

unfoldable pub copy_string : ℕ → ℕ → ℕ → Bytes → Bytes
copy_string zero dst src bytes = bytes
copy_string (suc left) dst src bytes =
    let c = bytes src in
    let rest = copy_string left (dst + 1) (src + 1) (write bytes dst c) in
    if c == 0 then write bytes dst c else rest

-- `"strcpy"`
unfoldable pub strcpy : ℕ → ℕ → Bytes → ℕ × Bytes
strcpy rdi rsi bytes =
    if rdi == 0 || rsi == 0 then (rdi, bytes) else (rdi, copy_string string_limit rdi rsi bytes)

-- The end of the string at an address.
unfoldable pub find_end : ℕ → ℕ → Bytes → Option ℕ
find_end zero at bytes = none
find_end (suc left) at bytes =
    let rest = find_end left (at + 1) bytes in if bytes at == 0 then some at else rest

-- `"strcat"`
unfoldable pub strcat : ℕ → ℕ → Bytes → ℕ × Bytes
strcat rdi rsi bytes =
    if rdi == 0 || rsi == 0 then (rdi, bytes) else elim (find_end string_limit rdi bytes) [
      | none ↦ (rdi, bytes)
      | some end ↦ (rdi, copy_string string_limit end rsi bytes)
    ]
