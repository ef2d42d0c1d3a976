-- ===== src/Memory/Virtual/Carve.antt =====
-- `carve_vma` (crates/core/src/memory/virtual_memory.rs): its loop over the overlapping keys is one pass over the
-- map, and it clears exactly the given range.
use anotherps4_emulator.Common.{
  ℕ, ◌+◌, ◌-◌, ◌≤◌, ◌<◌, ◌^◌, ◌≡◌, inl, inr, refl, sym, ap, ◌∙◌, List, [], ◌∷◌, ◌++◌, Option, none,
  some, Bool, true, false, not, ◌&&◌, ltb, if◌then◌else◌, arith, Bool-cases,
}
use anotherps4_emulator.Types.{VAddr, add64}
use anotherps4_emulator.Memory.Map.{
  Below, Below-le, Below-append, StartsAbove, get, insert, remove, insert_front, get-skip,
  insert-skip, remove-skip,
}
use anotherps4_emulator.Memory.Vma.{VirtualMemoryArea, overlaps}
use anotherps4_emulator.Memory.Virtual.{Vmas, overlapping, put_back, carve_keys, carve_vma}
use anotherps4_emulator.Memory.Virtual.Order.{
  Ordered, Ordered-le, IsClear, attributes, attributes_at, within,
}
use mathlib.Core.List.{append_assoc}

-- What is left of one area, before and behind the range.
abbrev before : VirtualMemoryArea → VAddr → Vmas
before v addr = if ltb v.base addr then (v.base, record v { size = addr - v.base }) ∷ [] else []

abbrev after : VirtualMemoryArea → VAddr → Vmas
after v end =
    if ltb end (v.base + v.size)
    then (end, record v { base = end; size = v.base + v.size - end }) ∷ []
    else []

abbrev meets : VirtualMemoryArea → VAddr → ℕ → Bool
meets v addr size = ltb addr (v.base + v.size) && ltb v.base (addr + size)

-- `carve_vma` as one pass.
abbrev pub carved : Vmas → VAddr → ℕ → Vmas
carved [] addr size = []
carved ((k, v) ∷ m) addr size =
    (if meets v addr size then before v addr ++ after v (addr + size) else (k, v) ∷ [])
    ++ carved m addr size

if_swap {ℓ} :
    {A : Type ℓ} (p q : Bool) (a : A) (b : Option A)
    → (if p && not q then some a else if q then none else b)
      ≡ (if q then none else if p then some a else b)
if_swap true true a b = refl
if_swap true false a b = refl
if_swap false q a b = refl

if_disjoint {ℓ} :
    {A : Type ℓ} (p q : Bool) (a : A) (b : Option A)
    → (p ≡ true → q ≡ false)
    → (if p then some a else if q then none else b) ≡ (if q then none else if p then some a else b)
if_disjoint true true a b h = absurd (cc (h refl))
if_disjoint true false a b h = refl
if_disjoint false q a b h = refl

module _ (addr : VAddr) (size : ℕ) (sized : 0 < size) (room : addr + size < 2 ^ 64) where
  pub carved-Ordered : (low : VAddr) (m : Vmas) → Ordered low m → Ordered low (carved m addr size)
  carved-Ordered low [] o = tt
  carved-Ordered low ((k, v) ∷ m) o = ground (
    arith,
    carved-Ordered (v.base + v.size) m o.4,
    Ordered-le (v.base + v.size) low (carved m addr size),
    Ordered-le (v.base + v.size) addr (carved m addr size),
  )

  pub carved-IsClear :
      (low : VAddr) (m : Vmas) → Ordered low m → IsClear addr size (carved m addr size)
  carved-IsClear low [] o = tt
  carved-IsClear low ((k, v) ∷ m) o = ground (arith, carved-IsClear (v.base + v.size) m o.4)

  pieces_at :
      (v : VirtualMemoryArea) (rest : Vmas) (x : VAddr)
      → meets v addr size ≡ true
      → attributes_at ((before v addr ++ after v (addr + size)) ++ rest) x ≡ (
          if within v.base v.size x && not (within addr size x)
          then some (attributes v)
          else attributes_at rest x)
  pieces_at v rest x h = elim (Bool-cases (ltb v.base addr)) [
    | inl b ↦ ground arith
    | inr b ↦ ground arith
  ]

  meets_not :
      (v : VirtualMemoryArea) (x : VAddr)
      → meets v addr size ≡ false
      → within v.base v.size x ≡ true
      → within addr size x ≡ false
  meets_not v x h i = ground arith

  pub attributes_at-carved :
      (low : VAddr) (m : Vmas) (x : VAddr)
      → Ordered low m
      → attributes_at (carved m addr size) x
        ≡ (if within addr size x then none else attributes_at m x)
  attributes_at-carved low [] x o = ground arith
  attributes_at-carved low ((k, v) ∷ m) x o =
      let ih = attributes_at-carved (v.base + v.size) m x o.4 in
      elim (Bool-cases (meets v addr size)) [
        | inl h ↦
            rw (h, pieces_at v (carved m addr size) x h, ih)
              (if_swap (within v.base v.size x) (within addr size x) _ _)
        | inr h ↦ rw h (
            rw ih (if_disjoint (within v.base v.size x) (within addr size x) _ _ (meets_not v x h)))
      ]

  Ordered-StartsAbove : (low c : VAddr) (m : Vmas) → Ordered low m → c < low → StartsAbove c m
  Ordered-StartsAbove low c [] o h = tt
  Ordered-StartsAbove low c ((k, v) ∷ m) o h = omega arith

  overlap_test :
      (k : VAddr) (v : VirtualMemoryArea)
      → k ≡ v.base
      → v.base + v.size < 2 ^ 64
      → (ltb k (add64 addr size) && overlaps v addr size) ≡ meets v addr size
  overlap_test k v e h = ground arith

  put_back_lem :
      (front : Vmas) (v : VirtualMemoryArea) (m : Vmas)
      → Below v.base front
      → v.base + v.size < 2 ^ 64
      → Ordered (v.base + v.size) m
      → 0 < v.size
      → meets v addr size ≡ true
      → put_back v (front ++ m) addr size ≡ front ++ ((before v addr ++ after v (addr + size)) ++ m)
  put_back_lem front v m f b o z h =
      let v1 : VirtualMemoryArea = record v { size = addr - v.base } in
      let v2 : VirtualMemoryArea = record v {
        base = addr + size;
        size = v.base + v.size - (addr + size);
      } in
      let up : (c : ℕ) → v.base ≤ c → Below c front = λ c le. Below-le v.base c front le f in
      let s1 = insert_front v.base v1 m (Ordered-StartsAbove _ v.base m o (omega arith)) in
      let s2 : addr + size < v.base + v.size → insert (addr + size) v2 m ≡ (addr + size, v2) ∷ m =
        λ lt. insert_front (addr + size) v2 m (Ordered-StartsAbove _ (addr + size) m o lt) in
      let t1 = insert-skip v.base v1 front m f in
      let t2 = insert-skip (addr + size) v2 front m (up (addr + size) (ground arith)) in
      let t3 =
        insert-skip (addr + size) v2 front (insert v.base v1 m) (up (addr + size) (ground arith)) in
      elim (Bool-cases (ltb v.base addr)) [ inl b1 ↦ ground arith | inr b1 ↦ ground arith ]

  -- What replaces one area lies below the area's end.
  replaced : VirtualMemoryArea → Vmas
  replaced v = before v addr ++ after v (addr + size)

  replaced-Below :
      (v : VirtualMemoryArea)
      → meets v addr size ≡ true
      → 0 < v.size
      → Below (v.base + v.size) (replaced v)
  unfolding replaced
  replaced-Below v h z = ground arith

  carve_keys_step :
      (front : Vmas) (k : VAddr) (v : VirtualMemoryArea) (m : Vmas) (bases : List VAddr)
      (low : VAddr)
      → Ordered low ((k, v) ∷ m)
      → Below low front
      → meets v addr size ≡ true
      → carve_keys (k ∷ bases) (front ++ (k, v) ∷ m) addr size
        ≡ carve_keys bases ((front ++ replaced v) ++ m) addr size
  unfolding carve_keys replaced
  carve_keys_step front k v m bases low o f h =
      let f' = Below-le low k front (omega arith) f in
      let fv : Below v.base front = Below-le low v.base front (omega arith) f in
      let g : get k (front ++ (k, v) ∷ m) ≡ some v =
        get-skip k front ((k, v) ∷ m) f' ∙ ground arith in
      let r : remove k (front ++ (k, v) ∷ m) ≡ front ++ m =
        remove-skip k front ((k, v) ∷ m) f' ∙ ground arith in
      let p = put_back_lem front v m fv o.3 o.4 o.2 h in
      rw (carve_keys, g, r, p)
        (ap (λ z. carve_keys bases z addr size) (sym (append_assoc front (replaced v) m)))

  carve_keys_lem :
      (front suffix : Vmas) (low : VAddr)
      → Ordered low suffix
      → Below low front
      → carve_keys (overlapping suffix addr size) (front ++ suffix) addr size
        ≡ front ++ carved suffix addr size
  unfolding overlapping
  carve_keys_lem front [] low o f = unfold carve_keys in refl
  carve_keys_lem front ((k, v) ∷ m) low o f =
      let up : Below (v.base + v.size) front =
        Below-le low (v.base + v.size) front (omega arith) f in
      elim (Bool-cases (meets v addr size)) [
        | inl h ↦
            let ih =
              carve_keys_lem (front ++ replaced v) m (v.base + v.size) o.4
                (Below-append _ front (replaced v) up (replaced-Below v h o.2)) in
            let step = carve_keys_step front k v m (overlapping m addr size) low o f h in
            rw (overlapping, overlap_test k v o.0 o.3, h)
              (step ∙ ih ∙ unfold replaced in append_assoc front (replaced v) (carved m addr size))
        | inr h ↦
            let ih =
              carve_keys_lem (front ++ (k, v) ∷ []) m (v.base + v.size) o.4
                (Below-append _ front ((k, v) ∷ []) up (omega arith)) in
            rw (overlapping, overlap_test k v o.0 o.3, h) (simp append_assoc at ih)
      ]

  -- On an ordered map `carve_vma` is the one pass.
  pub carve_vma_lem :
      (low : VAddr) (m : Vmas) → Ordered low m → carve_vma m addr size ≡ carved m addr size
  unfolding carve_vma
  carve_vma_lem low m o = carve_keys_lem [] m low o tt
