-- ===== src/Memory/Physical/Free.antt =====
-- `PhysicalMemoryManager::free` (crates/core/src/memory/physical_memory.rs): when it panics, and what it does
-- when it does not.
use anotherps4_emulator.Common.{
  ℕ, ◌≡◌, ◌≢◌, ◌↔◌, refl, ◌∙◌, ◌∷◌, ◌++◌, none, some, Option, true, false, if◌then◌else◌, arith,
  Option-cases, inl, inr,
}
use anotherps4_emulator.Common.Int.{ℤ, pos}
use anotherps4_emulator.Types.{PAddr}
use anotherps4_emulator.Memory.Map.{get, modify, get-skip, modify-skip}
use anotherps4_emulator.Memory.Physical.{
  PhysicalMemoryArea, PhysicalMemoryManager, Areas, mark, free_memory, free, can_merge_with,
}
use anotherps4_emulator.Memory.Physical.Tiles.{
  Tiled, IsTiled, state_at, within, Tiled-le, Tiled-Below,
}
use anotherps4_emulator.Memory.Physical.Merge.{
  merges_early, merge_last, merge_adjacent_lem, merge_last-Tiled, int_eq_refl, state_at-merge_last,
  mark-Tiled, state_at-mark, merges_early_at, Tiled-split,
}

-- The map that `free` hands to the merge loop.
abbrev pub freed : PhysicalMemoryManager → PAddr → Areas
freed self addr = modify addr (mark free_memory) self.areas

-- The size of the area at a base address.
abbrev pub size_at : PAddr → Areas → Option ℕ
size_at addr areas = elim (get addr areas) [ none ↦ none | some a ↦ some a.size ]

module _ (self : PhysicalMemoryManager) (addr : PAddr) (size : ℕ) (valid : IsTiled self) where
  freed-Tiled : Tiled 0 (freed self addr) self.total_size
  freed-Tiled =
      mark-Tiled addr (record { base = 0; size = 0; memory_type = pos 0; dma_type = free_memory })
        free_memory 0 self.areas self.total_size valid.tiled

  free_lem :
      (a : PhysicalMemoryArea)
      → get addr self.areas ≡ some a
      → a.size ≡ size
      → free self addr size ≡ (
          if merges_early (freed self addr)
          then none
          else some (record self { areas = merge_last (freed self addr) }, true))
  unfolding free
  free_lem a g e = ground (arith, merge_adjacent_lem (freed self addr) self.total_size freed-Tiled)

  -- For an area of a tiled memory with the given size, free panics exactly when, with the area marked
  -- free, two neighbours other than the last two can merge.
  pub free_panics_iff :
      (a : PhysicalMemoryArea)
      → get addr self.areas ≡ some a
      → a.size ≡ size
      → (free self addr size ≡ none) ↔ (merges_early (freed self addr) ≡ true)
  free_panics_iff a g e = rw (free_lem a g e) (ground arith)

  -- When free answers true on a tiled memory, the memory is still tiled, the size bytes at the address
  -- are free, and no other address has changed its state.
  pub free_refines :
      (self' : PhysicalMemoryManager)
      → free self addr size ≡ some (self', true)
      → IsTiled self'
        × (t : ℤ) × ((x : PAddr)
            → state_at self'.areas x
              ≡ (if within addr size x then some (t, free_memory) else state_at self.areas x))
  unfolding free
  free_refines self' h = elim (Option-cases (get addr self.areas)) [
    | inl missing ↦ absurd (ground arith)
    | inr (a, g) ↦
        let late : merges_early (freed self addr) ≡ false = ground (arith, free_lem a g) in
        let sizes : a.size ≡ size = ground arith in
        let e : record self { areas = merge_last (freed self addr) } ≡ self' =
          ground (arith, free_lem a g) in
        rw (← e) (
          record {
            tiled = merge_last-Tiled 0 (freed self addr) self.total_size freed-Tiled valid.bounded;
            bounded = valid.bounded;
          },
          a.memory_type,
          λ x.
              state_at-merge_last 0 (freed self addr) self.total_size x freed-Tiled valid.bounded
              ∙ rw (← sizes)
                  (state_at-mark addr a free_memory 0 self.areas self.total_size x valid.tiled g),
        )
  ]

  -- When free answers false on a tiled memory, it has changed nothing, and no area has this base and
  -- size.
  pub free_rejects :
      (self' : PhysicalMemoryManager)
      → free self addr size ≡ some (self', false)
      → (self' ≡ self) × (size_at addr self.areas ≢ some size)
  unfolding free
  free_rejects self' h = elim (Option-cases (get addr self.areas)) [
    | inl missing ↦ (ground arith, rw (missing, size_at) (λ e. ground arith))
    | inr (a, g) ↦ (ground arith, rw (g, size_at) (λ e. ground (arith, free_lem a g)))
  ]

-- On a tiled memory, freeing an area whose right neighbour is free and of the same memory type panics,
-- unless that neighbour is the last area.
pub free_panics_at :
    (self : PhysicalMemoryManager) (front : Areas) (x y z : PAddr × PhysicalMemoryArea)
    (rest : Areas)
    → IsTiled self
    → self.areas ≡ front ++ x ∷ y ∷ z ∷ rest
    → y.1.dma_type ≡ free_memory
    → x.1.memory_type ≡ y.1.memory_type
    → free self x.0 x.1.size ≡ none
unfolding can_merge_with
free_panics_at self front x y z rest valid split is_free same =
    let t = Tiled-split 0 front x (y ∷ z ∷ rest) self.total_size (rw split at valid.tiled) in
    let f = Tiled-Below 0 front x.0 x.0 t.0 (omega arith) in
    let g : get x.0 self.areas ≡ some x.1 =
      rw split (get-skip x.0 front (x ∷ y ∷ z ∷ rest) f ∙ ground arith) in
    let m : freed self x.0 ≡ front ++ (x.0, mark free_memory x.1) ∷ y ∷ z ∷ rest =
      rw split (modify-skip x.0 (mark free_memory) front (x ∷ y ∷ z ∷ rest) f ∙ ground arith) in
    let c : can_merge_with (mark free_memory x.1) y.1 ≡ true =
      ground
        (arith, int_eq_refl y.1.memory_type, Tiled-le _ (y ∷ z ∷ rest) self.total_size t.1.3) in
    (free_panics_iff self x.0 x.1.size valid x.1 g refl).1
      (rw m (merges_early_at front (x.0, mark free_memory x.1) y z rest c))
