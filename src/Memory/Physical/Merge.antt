-- ===== src/Memory/Physical/Merge.antt =====
-- `merge_adjacent` on a tiled memory (crates/core/src/memory/physical_memory.rs): when its loop panics, and the
-- areas that it leaves when it does not.
use anotherps4_emulator.Common.{
  ◌+◌, ◌<◌, ◌^◌, ◌≡◌, refl, sym, ◌∙◌, [], ◌∷◌, ◌++◌, none, some, Bool, true, false, ◌||◌,
  if◌then◌else◌, arith, Bool-cases, inl, inr,
}
use anotherps4_emulator.Common.Int.{ℤ, pos, negsuc, int_eq}
use anotherps4_emulator.Types.{PAddr, add64}
use anotherps4_emulator.Memory.Map.{
  Below, keys, get, remove, modify, get-skip, remove-skip, modify-skip, Below-le,
}
use anotherps4_emulator.Memory.Physical.{
  PhysicalMemoryType, PhysicalMemoryArea, Areas, mark, merge_pair, merge_keys, merge_adjacent,
  can_merge_with, type_eq,
}
use anotherps4_emulator.Memory.Physical.Tiles.{Tiled, state_at, within, Tiled-append, Tiled-Below}
use mathlib.Core.List.{append_assoc}

-- Some two neighbours that are not the last two can merge.
abbrev pub merges_early : Areas → Bool
merges_early [] = false
merges_early (x ∷ []) = false
merges_early (x ∷ y ∷ []) = false
merges_early (x ∷ y ∷ z ∷ rest) = can_merge_with x.1 y.1 || merges_early (y ∷ z ∷ rest)

abbrev pub joined : PhysicalMemoryArea → PhysicalMemoryArea → PhysicalMemoryArea
joined a b = record a { size = add64 a.size b.size }

-- The map with its last two areas merged, if they can be.
abbrev pub merge_last : Areas → Areas
merge_last [] = []
merge_last (x ∷ []) = x ∷ []
merge_last (x ∷ y ∷ []) = if can_merge_with x.1 y.1 then (x.0, joined x.1 y.1) ∷ [] else x ∷ y ∷ []
merge_last (x ∷ y ∷ z ∷ rest) = x ∷ merge_last (y ∷ z ∷ rest)

get_gone : (s : PAddr) (m : Areas) (e c : PAddr) → Tiled s m e → c < s → get c m ≡ none
get_gone s [] e c t h = refl
get_gone s ((k, a) ∷ m) e c t h = ground (arith, get_gone (s + a.size) m e c t.3)

module _ (e : PAddr) where
  merge_pair_lem :
      (front : Areas) (x y : PAddr × PhysicalMemoryArea) (rest : Areas)
      → Tiled 0 front x.0
      → Tiled x.0 (x ∷ y ∷ rest) e
      → merge_pair x.0 y.0 (front ++ x ∷ y ∷ rest)
        ≡ some (
            front
            ++ (if can_merge_with x.1 y.1 then (x.0, joined x.1 y.1) ∷ rest else x ∷ y ∷ rest))
  unfolding merge_pair
  merge_pair_lem front x y rest tf t =
      let f = Tiled-Below 0 front x.0 x.0 tf (omega arith) in
      let f' : Below y.0 front = Below-le x.0 y.0 front (omega arith) f in
      let gx : get x.0 (front ++ x ∷ y ∷ rest) ≡ some x.1 =
        get-skip x.0 front (x ∷ y ∷ rest) f ∙ ground arith in
      let gy : get y.0 (front ++ x ∷ y ∷ rest) ≡ some y.1 =
        get-skip y.0 front (x ∷ y ∷ rest) f' ∙ ground arith in
      let r : remove y.0 (front ++ x ∷ y ∷ rest) ≡ front ++ x ∷ rest =
        remove-skip y.0 front (x ∷ y ∷ rest) f' ∙ ground arith in
      let m : modify x.0 (λ a. joined a y.1) (front ++ x ∷ rest)
          ≡ front ++ (x.0, joined x.1 y.1) ∷ rest =
        modify-skip x.0 (λ a. joined a y.1) front (x ∷ rest) f ∙ ground arith in
      elim (Bool-cases (can_merge_with x.1 y.1)) [
        | inl can ↦ rw (gx, merge_pair, gy, can, r, m)
        | inr cannot ↦ rw (gx, merge_pair, gy, cannot)
      ]

  -- One round of the loop, at the first two areas of a suffix with a tiled front.
  merge_pair_at :
      (front : Areas) (x y : PAddr × PhysicalMemoryArea) (rest : Areas) (b : PAddr)
      → Tiled 0 front b
      → Tiled b (x ∷ y ∷ rest) e
      → merge_pair x.0 y.0 (front ++ x ∷ y ∷ rest)
        ≡ some (
            front
            ++ (if can_merge_with x.1 y.1 then (x.0, joined x.1 y.1) ∷ rest else x ∷ y ∷ rest))
  merge_pair_at front x y rest b tf t =
      merge_pair_lem front x y rest (rw t.0 tf) (refl, omega arith, t.2, rw t.0 t.3)

  -- After a merge the key of the second area is gone, so the next round panics.
  merge_keys_gone :
      (front : Areas) (x y z : PAddr × PhysicalMemoryArea) (rest : Areas) (b : PAddr)
      (j : PhysicalMemoryArea)
      → Tiled 0 front b
      → Tiled b (x ∷ y ∷ z ∷ rest) e
      → merge_keys (y.0 ∷ z.0 ∷ keys rest) (front ++ (x.0, j) ∷ z ∷ rest) ≡ none
  unfolding merge_keys merge_pair
  merge_keys_gone front x y z rest b j tf t =
      let f = Tiled-Below 0 front b y.0 tf (omega arith) in
      let g : get y.0 (front ++ (x.0, j) ∷ z ∷ rest) ≡ none =
        get-skip y.0 front ((x.0, j) ∷ z ∷ rest) f
        ∙ ground (arith, get_gone _ (z ∷ rest) e y.0 t.3.3 (omega arith)) in
      rw (merge_keys, g, merge_pair)

  -- The loop over the keys of a suffix, with nothing merged in the front.
  merge_keys_lem :
      (front suffix : Areas) (b : PAddr)
      → Tiled 0 front b
      → Tiled b suffix e
      → merge_keys (keys suffix) (front ++ suffix)
        ≡ (if merges_early suffix then none else some (front ++ merge_last suffix))
  unfolding merge_keys
  merge_keys_lem front [] b tf t = refl
  merge_keys_lem front (x ∷ []) b tf t = refl
  merge_keys_lem front (x ∷ y ∷ []) b tf t = rw (merge_pair_at front x y [] b tf t, merge_keys)
  merge_keys_lem front (x ∷ y ∷ z ∷ rest) b tf t = elim (Bool-cases (can_merge_with x.1 y.1)) [
    | inl can ↦
        rw (merge_pair_at front x y (z ∷ rest) b tf t, merge_keys, can)
          (merge_keys_gone front x y z rest b (joined x.1 y.1) tf t)
    | inr cannot ↦
        let ih =
          merge_keys_lem (front ++ x ∷ []) (y ∷ z ∷ rest) (b + x.1.size)
            (Tiled-append 0 front b (x ∷ []) (b + x.1.size) tf (t.0, t.1, t.2, refl)) t.3 in
        rw (merge_pair_at front x y (z ∷ rest) b tf t, merge_keys, cannot) (simp append_assoc at ih)
  ]

-- The merge loop panics exactly when some two neighbours that are not the last two can merge.
pub merge_adjacent_lem :
    (m : Areas) (e : PAddr)
    → Tiled 0 m e
    → merge_adjacent m ≡ (if merges_early m then none else some (merge_last m))
unfolding merge_adjacent
merge_adjacent_lem m e t = merge_keys_lem e [] m 0 refl t

pub merge_last-Tiled :
    (s : PAddr) (m : Areas) (e : PAddr) → Tiled s m e → e < 2 ^ 64 → Tiled s (merge_last m) e
unfolding can_merge_with
merge_last-Tiled s [] e t h = t
merge_last-Tiled s (x ∷ []) e t h = t
merge_last-Tiled s (x ∷ y ∷ []) e t h = ground arith
merge_last-Tiled s (x ∷ y ∷ z ∷ rest) e t h =
    (t.0, t.1, t.2, merge_last-Tiled (s + x.1.size) (y ∷ z ∷ rest) e t.3 h)

int_eq_lem : (a b : ℤ) → int_eq a b ≡ true → a ≡ b
int_eq_lem a b h = ground arith

pub int_eq_refl : (a : ℤ) → int_eq a a ≡ true
int_eq_refl (pos n) = ground arith
int_eq_refl (negsuc n) = ground arith

type_eq_lem : (a b : PhysicalMemoryType) → type_eq a b ≡ true → a ≡ b
type_eq_lem a b h = ground arith

pub state_at-merge_last :
    (s : PAddr) (m : Areas) (e x : PAddr)
    → Tiled s m e
    → e < 2 ^ 64
    → state_at (merge_last m) x ≡ state_at m x
unfolding can_merge_with
state_at-merge_last s [] e x t h = refl
state_at-merge_last s (p ∷ []) e x t h = refl
state_at-merge_last s (p ∷ q ∷ []) e x t h =
    ground
      (arith, int_eq_lem p.1.memory_type q.1.memory_type, type_eq_lem p.1.dma_type q.1.dma_type)
state_at-merge_last s (p ∷ q ∷ r ∷ rest) e x t h =
    ground (arith, state_at-merge_last (s + p.1.size) (q ∷ r ∷ rest) e x t.3 h)

module _ (addr : PAddr) (a : PhysicalMemoryArea) (t : PhysicalMemoryType) where
  pub mark-Tiled :
      (s : PAddr) (m : Areas) (e : PAddr) → Tiled s m e → Tiled s (modify addr (mark t) m) e
  mark-Tiled s [] e h = h
  mark-Tiled s ((k, b) ∷ m) e h = ground (arith, mark-Tiled (s + b.size) m e h.3)

  pub state_at-mark :
      (s : PAddr) (m : Areas) (e x : PAddr)
      → Tiled s m e
      → get addr m ≡ some a
      → state_at (modify addr (mark t) m) x
        ≡ (if within addr a.size x then some (a.memory_type, t) else state_at m x)
  state_at-mark s [] e x h g = cc
  state_at-mark s ((k, b) ∷ m) e x h g =
      ground (arith, state_at-mark (s + b.size) m e x h.3, get_gone _ m e addr h.3)

pub merges_early_at :
    (front : Areas) (x y z : PAddr × PhysicalMemoryArea) (rest : Areas)
    → can_merge_with x.1 y.1 ≡ true
    → merges_early (front ++ x ∷ y ∷ z ∷ rest) ≡ true
merges_early_at [] x y z rest h = ground arith
merges_early_at (p ∷ []) x y z rest h = ground arith
merges_early_at (p ∷ q ∷ []) x y z rest h = ground arith
merges_early_at (p ∷ q ∷ r ∷ front) x y z rest h =
    ground (arith, merges_early_at (q ∷ r ∷ front) x y z rest h)

pub Tiled-split :
    (s : PAddr) (front : Areas) (x : PAddr × PhysicalMemoryArea) (rest : Areas) (e : PAddr)
    → Tiled s (front ++ x ∷ rest) e
    → Tiled s front x.0 × Tiled x.0 (x ∷ rest) e
Tiled-split s [] x rest e t = (sym t.0, (refl, omega arith, t.2, rw t.0 t.3))
Tiled-split s ((k, a) ∷ front) x rest e t =
    let (u, v) = Tiled-split (s + a.size) front x rest e t.3 in ((t.0, t.1, t.2, u), v)
