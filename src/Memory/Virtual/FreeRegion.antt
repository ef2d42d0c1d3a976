-- ===== src/Memory/Virtual/FreeRegion.antt =====
-- `find_free_region` (crates/core/src/memory/virtual_memory.rs): what it finds, and when it finds nothing.
use anotherps4_emulator.Common.{
  ℕ, ◌+◌, ◌%◌, ◌≤◌, ◌^◌, ◌≡◌, refl, ap, inl, inr, [], ◌∷◌, ◌++◌, some, true, ◌&&◌, leb,
  if◌then◌else◌, arith, Bool-cases, All,
}
use anotherps4_emulator.Types.{VAddr, page_size, align_up, add64}
use anotherps4_emulator.Types.Align.{align_up_page, align_up_least}
use anotherps4_emulator.Memory.Vma.{VirtualMemoryArea, is_free}
use anotherps4_emulator.Memory.Virtual.{Vmas, find_free_region}
use anotherps4_emulator.Memory.Virtual.Order.{Ordered, attributes, attributes_at, within}

-- Every area leaves room for a page and `size` bytes behind it, so that no sum wraps.
abbrev pub HasRoom : ℕ → Vmas → Type 0
HasRoom size m =
    All (λ (e : ℕ × VirtualMemoryArea). e.1.base + e.1.size + page_size + size ≤ 2 ^ 64) m

-- The address is a multiple of the page size, and the range lies whole in one area of the map, which is free and whose
-- attributes each address of the range has.
pub record IsFreeRange (m : Vmas) (size : ℕ) (addr : VAddr) : Type 0 where
  pub aligned : addr % page_size ≡ 0
  pub front : Vmas
  pub key : VAddr
  pub owner : VirtualMemoryArea
  pub back : Vmas
  pub split : m ≡ front ++ (key, owner) ∷ back
  pub owner_free : is_free owner ≡ true
  pub above : owner.base ≤ addr
  pub below : addr + size ≤ owner.base + owner.size
  pub owned :
      (x : VAddr)
      → attributes_at m x
        ≡ (if within addr size x then some (attributes owner) else attributes_at m x)

module _ (size : ℕ) where
  -- On ordered areas, each with room for a page and size bytes behind it below 2 ^ 64: an address that
  -- find_free_region returns is a multiple of the page size, and the size bytes there all lie in one
  -- free area.
  pub find_free_region_sound :
      (low : VAddr) (m : Vmas) (addr : VAddr)
      → Ordered low m
      → HasRoom size m
      → find_free_region m size page_size ≡ some addr
      → IsFreeRange m size addr × (low ≤ addr)
  unfolding find_free_region
  find_free_region_sound low [] addr o r h = absurd (cc)
  find_free_region_sound low ((k, v) ∷ m) addr o r h =
      let p = align_up_page v.base (omega arith) in
      elim (Bool-cases
        (is_free v && leb (add64 (align_up v.base page_size) size) (add64 v.base v.size))) [
          | inl yes_free ↦
              let e : align_up v.base page_size ≡ addr = ground arith in
              (
                record {
                  aligned = ground arith;
                  front = [];
                  key = k;
                  owner = v;
                  back = m;
                  split = refl;
                  owner_free = ground arith;
                  above = ground arith;
                  below = ground arith;
                  owned = λ x. ground arith;
                },
                omega arith,
              )
          | inr not_free ↦
              let (f, le) =
                find_free_region_sound (v.base + v.size) m addr o.4 r.1 (ground arith) in
              (
                record {
                  aligned = f.aligned;
                  front = (k, v) ∷ f.front;
                  key = f.key;
                  owner = f.owner;
                  back = f.back;
                  split = ap (λ rest. (k, v) ∷ rest) f.split;
                  owner_free = f.owner_free;
                  above = f.above;
                  below = f.below;
                  owned = λ x. ground (arith, f.owned x);
                },
                omega arith,
              )
        ]

  complete_from :
      (low : VAddr) (front : Vmas) (k : VAddr) (v : VirtualMemoryArea) (back : Vmas) (p : VAddr)
      → Ordered low (front ++ (k, v) ∷ back)
      → HasRoom size (front ++ (k, v) ∷ back)
      → is_free v ≡ true
      → p % page_size ≡ 0
      → v.base ≤ p
      → p + size ≤ v.base + v.size
      → (addr : VAddr) × (find_free_region (front ++ (k, v) ∷ back) size page_size ≡ some addr)
        × (addr ≤ p)
        × (low ≤ v.base)
  unfolding find_free_region
  complete_from low [] k v back p o r fr pa lo hi =
      let b = align_up_page v.base (omega arith) in
      let l : align_up v.base page_size ≤ p =
        align_up_least 14 (omega arith) v.base p (omega arith) lo pa in
      (align_up v.base page_size, ground arith, l, omega arith)
  complete_from low ((j, w) ∷ front) k v back p o r fr pa lo hi =
      let (addr, found, le, above) =
        complete_from (w.base + w.size) front k v back p o.4 r.1 fr pa lo hi in
      let b = align_up_page w.base (omega arith) in
      elim (Bool-cases
        (is_free w && leb (add64 (align_up w.base page_size) size) (add64 w.base w.size))) [
          | inl yes_free ↦ (align_up w.base page_size, ground arith, ground arith, omega arith)
          | inr not_free ↦ (addr, ground arith, le, omega arith)
        ]

  -- On ordered areas, each with room for a page and size bytes behind it below 2 ^ 64: if some free
  -- area holds size bytes at a multiple p of the page size, find_free_region returns an address that
  -- is not above p.
  pub find_free_region_complete :
      (front : Vmas) (k : VAddr) (v : VirtualMemoryArea) (back : Vmas) (p : VAddr)
      → Ordered 0 (front ++ (k, v) ∷ back)
      → HasRoom size (front ++ (k, v) ∷ back)
      → is_free v ≡ true
      → p % page_size ≡ 0
      → v.base ≤ p
      → p + size ≤ v.base + v.size
      → (addr : VAddr) × (find_free_region (front ++ (k, v) ∷ back) size page_size ≡ some addr)
        × (addr ≤ p)
  find_free_region_complete front k v back p o r fr pa lo hi =
      let (addr, found, le, _) = complete_from 0 front k v back p o r fr pa lo hi in
      (addr, found, le)
