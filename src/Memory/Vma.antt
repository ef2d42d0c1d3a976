-- ===== src/Memory/Vma.antt =====
-- `VMAType` and `VirtualMemoryArea` of crates/core/src/memory/virtual_memory.rs; flag sets are their bits.
use anotherps4_emulator.Common.{
  ℕ, Bool, true, false, ◌&&◌, ◌||◌, not, ltb, leb, ◌==◌, if◌then◌else◌, bit_and,
}
use anotherps4_emulator.Types.{VAddr, add64}
use Prim.Native.String.{String}
use text.Mathlib.Text.{◌==◌ as str_eq}

-- `contains` of a flag set
abbrev pub has_flags : ℕ → ℕ → Bool
has_flags bits flags = bit_and bits flags == flags

pub data VmaType : Type 0 where
  free reserved direct flexible pooled pool_reserved stack thread_data code file : VmaType

abbrev pub discriminant : VmaType → ℕ
discriminant VmaType.free = 0
discriminant VmaType.reserved = 1
discriminant VmaType.direct = 2
discriminant VmaType.flexible = 3
discriminant VmaType.pooled = 4
discriminant VmaType.pool_reserved = 5
discriminant VmaType.stack = 6
discriminant VmaType.thread_data = 7
discriminant VmaType.code = 8
discriminant VmaType.file = 9

pub record VirtualMemoryArea : Type 0 where
  pub base : VAddr
  pub size : ℕ
  pub vma_type : VmaType
  pub prot : ℕ
  pub name : String
  pub disallow_merge : Bool

abbrev pub contains : VirtualMemoryArea → VAddr → ℕ → Bool
contains self addr size = leb self.base addr && leb (add64 addr size) (add64 self.base self.size)

abbrev pub overlaps : VirtualMemoryArea → VAddr → ℕ → Bool
overlaps self addr size = ltb addr (add64 self.base self.size) && ltb self.base (add64 addr size)

abbrev pub is_free : VirtualMemoryArea → Bool
is_free self = discriminant self.vma_type == discriminant VmaType.free

abbrev mapped_type : VmaType → Bool
mapped_type VmaType.free = false
mapped_type VmaType.reserved = false
mapped_type VmaType.pool_reserved = false
mapped_type _ = true

unfoldable pub is_mapped : VirtualMemoryArea → Bool
is_mapped self = mapped_type self.vma_type

unfoldable pub can_merge_with : VirtualMemoryArea → VirtualMemoryArea → Bool
can_merge_with self next =
    if self.disallow_merge || next.disallow_merge
    then false
    else if not (add64 self.base self.size == next.base)
    then false
    else if not (self.prot == next.prot)
        || not (discriminant self.vma_type == discriminant next.vma_type)
    then false
    else if not (str_eq self.name next.name)
    then false
    else true
