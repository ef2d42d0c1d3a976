-- ===== src/Memory/Virtual/Mapping.antt =====
-- `map_memory`, `unmap_memory` and `find_free_region` (crates/core/src/memory/virtual_memory.rs) against what is
-- known of each address.
use anotherps4_emulator.Common.{
  ℕ, ◌+◌, ◌≤◌, ◌<◌, ◌^◌, ◌≡◌, ◌⊎◌, inl, inr, refl, ◌∙◌, none, some, Bool, true, false,
  if◌then◌else◌, arith,
}
use anotherps4_emulator.Types.{VAddr, page_size, align_up}
use anotherps4_emulator.Types.Align.{align_up_page}
use anotherps4_emulator.Memory.Map.{insert}
use anotherps4_emulator.Memory.MemoryProt
use anotherps4_emulator.Memory.MemoryMapFlags
use anotherps4_emulator.Memory.AddressSpace.{Libc}
use anotherps4_emulator.Memory.Vma.{VmaType, VirtualMemoryArea, has_flags}
use anotherps4_emulator.Memory.Virtual.{
  Vmas, MemoryManager, carve_vma, map_memory, unmap_memory, free_area,
}
use anotherps4_emulator.Memory.Virtual.Order.{
  Ordered, Attributes, attributes, attributes_at, within, insert-Ordered, attributes_at-insert,
}
use anotherps4_emulator.Memory.Virtual.Carve.{
  carved, carve_vma_lem, carved-Ordered, carved-IsClear, attributes_at-carved,
}
use Prim.Native.String.{String}

abbrev pub IsOrdered : MemoryManager → Type 0
IsOrdered self = Ordered 0 self.vma_map

if_same {ℓ} :
    {A : Type ℓ} (q : Bool) (a b c : A)
    → (if q then a else if q then b else c) ≡ (if q then a else c)
if_same true a b c = refl
if_same false a b c = refl

-- Replacing a range by one area, as `map_memory` and `unmap_memory` do.
module _ (v : VirtualMemoryArea) (sized : 0 < v.size) (room : v.base + v.size < 2 ^ 64) (m : Vmas)
    (o : Ordered 0 m) where
  abbrev replaced : Vmas
  replaced = insert v.base v (carve_vma m v.base v.size)

  replace-Ordered : Ordered 0 replaced
  replace-Ordered = rw (carve_vma_lem v.base v.size sized room 0 m o) (
      insert-Ordered v.base v refl sized room 0 (carved m v.base v.size)
        (carved-Ordered v.base v.size sized room 0 m o)
        (carved-IsClear v.base v.size sized room 0 m o) (omega arith))

  attributes_at-replace :
      (x : VAddr)
      → attributes_at replaced x
        ≡ (if within v.base v.size x then some (attributes v) else attributes_at m x)
  attributes_at-replace x = rw (carve_vma_lem v.base v.size sized room 0 m o) (
      attributes_at-insert v.base v refl sized room 0 (carved m v.base v.size) x
        (carved-Ordered v.base v.size sized room 0 m o)
        (carved-IsClear v.base v.size sized room 0 m o)
      ∙ rw (attributes_at-carved v.base v.size sized room 0 m x o)
          (if_same (within v.base v.size x) _ _ _))

-- The memory manager with the range given new attributes and every other address left alone.
pub record Remaps (self self' : MemoryManager) (addr : VAddr) (size : ℕ) (a : Attributes)
    : Type 0 where
  pub ordered : IsOrdered self'
  pub known :
      (x : VAddr)
      → attributes_at self'.vma_map x
        ≡ (if within addr size x then some a else attributes_at self.vma_map x)

replace-Remaps :
    (self : MemoryManager) (v : VirtualMemoryArea)
    → IsOrdered self
    → 0 < v.size
    → v.base + v.size < 2 ^ 64
    → Remaps self
        (record self { vma_map = insert v.base v (carve_vma self.vma_map v.base v.size) })
        v.base
        v.size
        (attributes v)
replace-Remaps self v o sized room = record {
  ordered = replace-Ordered v sized room self.vma_map o;
  known = attributes_at-replace v sized room self.vma_map o;
}

module _ (libc : Libc) (self : MemoryManager) (virtual_addr : VAddr) (size : ℕ)
    (ordered : IsOrdered self) (sized : 0 < size) (fits : size + page_size ≤ 2 ^ 64) where
  -- On ordered areas, for a positive size and a range that ends below 2 ^ 64: when map_memory
  -- succeeds, the pages of the range have the type, protection, name and merge mark of the call, every
  -- other address is as before, and the areas stay disjoint and in order.
  pub map_memory_refines :
      (prot flags : ℕ) (vma_type : VmaType) (name : String) (self' : MemoryManager) (addr : VAddr)
      → map_memory libc self virtual_addr size prot flags vma_type name ≡ (self', some addr)
      → addr + align_up size page_size < 2 ^ 64
      → Remaps self self' addr
          (align_up size page_size)
          (vma_type, prot, name, has_flags flags MemoryMapFlags.no_coalesce)
  unfolding map_memory
  map_memory_refines prot flags vma_type name self' addr h room =
      let p = align_up_page size fits in
      let v : VirtualMemoryArea = record {
        base = addr;
        size = align_up size page_size;
        vma_type = vma_type;
        prot = prot;
        name = name;
        disallow_merge = has_flags flags MemoryMapFlags.no_coalesce;
      } in
      let r = replace-Remaps self v ordered (omega arith) room in
      let e : record self {
        vma_map = insert addr v (carve_vma self.vma_map addr (align_up size page_size));
      }
          ≡ self' =
        ground arith in
      rw (← e) r

  -- On ordered areas, for a positive size and a range that ends below 2 ^ 64: when unmap_memory
  -- succeeds, the pages of the range are free, every other address is as before, and the areas stay
  -- disjoint and in order.
  pub unmap_memory_refines :
      (self' : MemoryManager)
      → unmap_memory libc self virtual_addr size ≡ (self', true)
      → virtual_addr + align_up size page_size < 2 ^ 64
      → Remaps self self' virtual_addr
          (align_up size page_size)
          (VmaType.free, MemoryProt.none_bits, "", false)
  unfolding unmap_memory
  unmap_memory_refines self' h room =
      let p = align_up_page size fits in
      let r =
        replace-Remaps self (free_area virtual_addr (align_up size page_size)) ordered (omega arith)
          room in
      let e : record self {
        vma_map =
            insert virtual_addr (free_area virtual_addr (align_up size page_size))
              (carve_vma self.vma_map virtual_addr (align_up size page_size));
      }
          ≡ self' =
        ground arith in
      rw (← e) r

-- A mapping or an unmapping that fails changes nothing.
pub failures_change_nothing :
    (libc : Libc) (self self' : MemoryManager) (virtual_addr : VAddr) (size prot flags : ℕ)
    (vma_type : VmaType) (name : String)
    → (map_memory libc self virtual_addr size prot flags vma_type name ≡ (self', none))
      ⊎ (unmap_memory libc self virtual_addr size ≡ (self', false))
    → self' ≡ self
unfolding map_memory unmap_memory
failures_change_nothing libc self self' virtual_addr size prot flags vma_type name (inl h) =
    ground arith
failures_change_nothing libc self self' virtual_addr size prot flags vma_type name (inr h) =
    ground arith
