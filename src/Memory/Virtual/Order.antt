-- ===== src/Memory/Virtual/Order.antt =====
-- The invariant of the map of virtual memory areas (crates/core/src/memory/virtual_memory.rs), that the areas
-- are disjoint and in order, and its abstract view, what is known of each address.
use anotherps4_emulator.Common.{
  ℕ, ◌+◌, ◌≤◌, ◌<◌, ◌^◌, ◌≡◌, ◌⊎◌, refl, [], ◌∷◌, Option, none, some, Bool, ◌&&◌, ltb, leb,
  if◌then◌else◌, arith,
}
use anotherps4_emulator.Types.{VAddr}
use anotherps4_emulator.Memory.Map.{insert}
use anotherps4_emulator.Memory.Vma.{VmaType, VirtualMemoryArea}
use anotherps4_emulator.Memory.Virtual.{Vmas}
use Prim.Native.String.{String}

-- From `low` on the areas follow one another without overlap, each under its base address, of at
-- least one byte and below 2 ^ 64.
abbrev pub Ordered : VAddr → Vmas → Type 0
Ordered low [] = Unit
Ordered low ((key, v) ∷ rest) =
    (key ≡ v.base)
    × (low ≤ v.base)
    × (0 < v.size)
    × (v.base + v.size < 2 ^ 64)
    × Ordered (v.base + v.size) rest

-- Type, protection, name and merge mark of an address; `none` where no area is.
abbrev pub Attributes : Type 0
Attributes = VmaType × ℕ × String × Bool

abbrev pub attributes : VirtualMemoryArea → Attributes
attributes v = (v.vma_type, v.prot, v.name, v.disallow_merge)

abbrev pub within : VAddr → ℕ → VAddr → Bool
within base size x = leb base x && ltb x (base + size)

abbrev pub attributes_at : Vmas → VAddr → Option Attributes
attributes_at [] x = none
attributes_at ((_, v) ∷ rest) x =
    if within v.base v.size x then some (attributes v) else attributes_at rest x

-- No area meets the range.
abbrev pub IsClear : VAddr → ℕ → Vmas → Type 0
IsClear addr size [] = Unit
IsClear addr size ((_, v) ∷ rest) =
    ((v.base + v.size ≤ addr) ⊎ (addr + size ≤ v.base)) × IsClear addr size rest

pub Ordered-le : (low low' : VAddr) (m : Vmas) → low' ≤ low → Ordered low m → Ordered low' m
Ordered-le low low' [] le o = tt
Ordered-le low low' ((k, v) ∷ m) le o = (o.0, omega arith, o.2, o.3, o.4)

pub attributes_at-low :
    (low : VAddr) (m : Vmas) (x : VAddr) → Ordered low m → x < low → attributes_at m x ≡ none
attributes_at-low low [] x o h = refl
attributes_at-low low ((k, v) ∷ m) x o h =
    ground (arith, attributes_at-low (v.base + v.size) m x o.4)

module _ (addr : VAddr) (v : VirtualMemoryArea) (placed : v.base ≡ addr) (sized : 0 < v.size)
    (room : addr + v.size < 2 ^ 64) where
  -- Inserting an area into a clear range keeps the order.
  pub insert-Ordered :
      (low : VAddr) (m : Vmas)
      → Ordered low m
      → IsClear addr v.size m
      → low ≤ addr
      → Ordered low (insert addr v m)
  insert-Ordered low [] o c le = ground arith
  insert-Ordered low ((k, w) ∷ m) o c le =
      ground (arith, insert-Ordered (w.base + w.size) m o.4 c.1)

  -- Its addresses have its attributes then, and no other address changes.
  pub attributes_at-insert :
      (low : VAddr) (m : Vmas) (x : VAddr)
      → Ordered low m
      → IsClear addr v.size m
      → attributes_at (insert addr v m) x
        ≡ (if within addr v.size x then some (attributes v) else attributes_at m x)
  attributes_at-insert low [] x o c = ground arith
  attributes_at-insert low ((k, w) ∷ m) x o c = ground (
    arith,
    attributes_at-insert (w.base + w.size) m x o.4 c.1,
    attributes_at-low (w.base + w.size) m x o.4,
  )
