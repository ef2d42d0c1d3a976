-- ===== src/Memory/Physical/Refine.antt =====
-- What `PhysicalMemoryManager::allocate` promises (crates/core/src/memory/physical_memory.rs): the states of
-- the addresses after it, and when it succeeds.
use anotherps4_emulator.Common.{
  ℕ, ◌+◌, ◌%◌, ◌≤◌, ◌<◌, ◌^◌, ◌≡◌, ◌≢◌, ◌∙◌, max, [], ◌∷◌, ◌++◌, none, some, true, if◌then◌else◌,
  arith, Bool-cases, Option-cases, inl, inr,
}
use anotherps4_emulator.Common.Int.{ℤ}
use anotherps4_emulator.Types.{PAddr, page_size}
use anotherps4_emulator.Types.Align.{align_up_bounds, align_up_least}
use anotherps4_emulator.Memory.Physical.{
  PhysicalMemoryType, PhysicalMemoryArea, PhysicalMemoryManager, Areas, first_fit, fits,
  free_memory, allocated, allocate, type_eq,
}
use anotherps4_emulator.Memory.Physical.Tiles.{
  Tiled, IsTiled, state_at, within, Tiled-append, Tiled-le, state_at_front,
}
use anotherps4_emulator.Memory.Physical.Allocate.{
  Found, first_fit-Found, carve_area_lem, pieces-Tiled, state_at-pieces, pieces,
}

-- `size` bytes at `addr`, all of them free in `self`, are allocated in `self'`, and no other address
-- changes its state.
pub record Allocates (self self' : PhysicalMemoryManager) (search_start search_end : PAddr)
    (size alignment addr : ℕ) : Type 0 where
  pub aligned : addr % alignment ≡ 0
  pub from_start : search_start ≤ addr
  pub to_end : addr + size ≤ search_end
  pub in_memory : addr + size ≤ self.total_size
  pub memory_type : ℤ
  pub was_free :
      (x : PAddr)
      → state_at self.areas x
        ≡ (if within addr size x then some (memory_type, free_memory) else state_at self.areas x)
  pub states :
      (x : PAddr)
      → state_at self'.areas x
        ≡ (if within addr size x then some (memory_type, allocated) else state_at self.areas x)

free_of_eq : (t : PhysicalMemoryType) → type_eq t free_memory ≡ true → t ≡ free_memory
free_of_eq t h = ground arith

module _ (self : PhysicalMemoryManager) (search_start search_end : PAddr)
    (size requested_alignment k : ℕ) (valid : IsTiled self)
    (power : max requested_alignment page_size ≡ 2 ^ k) (small : k < 64) (sized : 0 < size)
    (start_room : search_start + 2 ^ k + size ≤ 2 ^ 64)
    (room : self.total_size + 2 ^ k + size ≤ 2 ^ 64) where
  abbrev Here : PAddr → Type 0
  Here addr = Found 0 self.areas self.total_size search_start search_end size (2 ^ k) addr

  Found-inside :
      (addr : PAddr) (f : Here addr)
      → (f.area.base ≤ addr)
        × (addr + size ≤ f.area.base + f.area.size)
        × (search_start ≤ addr)
        × (addr + size ≤ search_end)
        × (addr % 2 ^ k ≡ 0)
        × (f.area.dma_type ≡ free_memory)
        × (f.area.base + f.area.size ≤ self.total_size)
  Found-inside addr f =
      let le = Tiled-le _ f.back self.total_size f.back_tiled in
      let b = align_up_bounds k small (max f.area.base search_start) (omega arith) in
      let c = f.chosen in let t = f.fitting in ground (arith, free_of_eq f.area.dma_type)

  -- The manager that a successful search leads to.
  allocate_found :
      (addr : PAddr) (f : Here addr)
      → first_fit self.areas search_start search_end size (2 ^ k) ≡ some addr
      → allocate self search_start search_end size requested_alignment
        ≡ (record self { areas = f.front ++ pieces f.area f.back addr size }, some addr)
  unfolding allocate
  allocate_found addr f h =
      let i = Found-inside addr f in
      let c =
        carve_area_lem f.front f.area f.back self.total_size addr size f.front_tiled f.back_tiled
          valid.bounded sized i.0 i.1 in
      rw (power, h, allocate, f.split, c)

  allocate_missed :
      first_fit self.areas search_start search_end size (2 ^ k) ≡ none
      → allocate self search_start search_end size requested_alignment ≡ (self, none)
  unfolding allocate
  allocate_missed h = rw (power, h, allocate)

  Found-IsTiled :
      (addr : PAddr) (f : Here addr)
      → IsTiled (record self { areas = f.front ++ pieces f.area f.back addr size })
  Found-IsTiled addr f =
      let i = Found-inside addr f in
      record {
        tiled =
            Tiled-append 0 f.front f.area.base (pieces f.area f.back addr size) self.total_size
              f.front_tiled
              (pieces-Tiled f.front f.area f.back self.total_size addr size f.front_tiled
                f.back_tiled valid.bounded sized i.0 i.1);
        bounded = valid.bounded;
      }

  -- On a tiled memory, for a positive size, an alignment that is a power of two and sums that stay
  -- below 2 ^ 64: allocate keeps the areas tiling the memory, whether it succeeds or not.
  pub allocate-IsTiled : IsTiled (allocate self search_start search_end size requested_alignment).0
  allocate-IsTiled =
      elim (Option-cases (first_fit self.areas search_start search_end size (2 ^ k))) [
        | inl missed ↦ rw (allocate_missed missed) valid
        | inr (addr, hit) ↦
            let f =
              first_fit-Found self.total_size search_start search_end size (2 ^ k) addr 0 self.areas
                valid.tiled hit in
            rw (allocate_found addr f hit) (Found-IsTiled addr f)
      ]

  Found-was_free :
      (addr : PAddr) (f : Here addr) (x : PAddr)
      → state_at self.areas x ≡ (
          if within addr size x
          then some (f.area.memory_type, free_memory)
          else state_at self.areas x)
  Found-was_free addr f x =
      let i = Found-inside addr f in
      elim (Bool-cases (within addr size x)) [
        | inl inside ↦
            rw (inside, f.split)
              (state_at_front 0 f.front f.area.base ((f.area.base, f.area) ∷ f.back) x f.front_tiled
                  (ground arith)
                ∙ ground arith)
        | inr outside ↦ rw outside
      ]

  Found-Allocates :
      (addr : PAddr) (f : Here addr)
      → Allocates self
          (record self { areas = f.front ++ pieces f.area f.back addr size })
          search_start
          search_end
          size
          (2 ^ k)
          addr
  Found-Allocates addr f =
      let i = Found-inside addr f in
      record {
        aligned = i.4;
        from_start = i.2;
        to_end = i.3;
        in_memory = omega arith;
        memory_type = f.area.memory_type;
        was_free = Found-was_free addr f;
        states = λ x. rw f.split (
            state_at-pieces f.front f.area f.back self.total_size addr size f.front_tiled
              f.back_tiled valid.bounded sized i.0 i.1 x);
      }

  -- On a tiled memory, for a positive size, an alignment that is a power of two and sums that stay
  -- below 2 ^ 64: when allocate returns an address, the size bytes there are aligned, inside the
  -- search window and the memory, and were free; they are allocated now and no other address has
  -- changed its state.
  pub allocate_refines :
      (addr : PAddr)
      → (allocate self search_start search_end size requested_alignment).1 ≡ some addr
      → Allocates self
          (allocate self search_start search_end size requested_alignment).0
          search_start
          search_end
          size
          (2 ^ k)
          addr
  allocate_refines addr h =
      elim (Option-cases (first_fit self.areas search_start search_end size (2 ^ k))) [
        | inl missed ↦ absurd (cc (allocate_missed missed, h))
        | inr (addr', hit) ↦
            let f =
              first_fit-Found self.total_size search_start search_end size (2 ^ k) addr' 0
                self.areas valid.tiled hit in
            let e : addr' ≡ addr = ground (arith, allocate_found addr' f hit) in
            rw (allocate_found addr' f hit, ← e) (Found-Allocates addr' f)
      ]

  Tiled-member :
      (s : PAddr) (front : Areas) (key : PAddr) (a : PhysicalMemoryArea) (back : Areas)
      → Tiled s (front ++ (key, a) ∷ back) self.total_size
      → a.base + a.size ≤ self.total_size
  Tiled-member s [] key a back t = omega (arith, Tiled-le (s + a.size) back self.total_size t.3)
  Tiled-member s ((j, b) ∷ front) key a back t = Tiled-member (s + b.size) front key a back t.3

  first_fit_complete :
      (front : Areas) (key : PAddr) (a : PhysicalMemoryArea) (back : Areas)
      → fits a search_start search_end size (2 ^ k) ≡ true
      → first_fit (front ++ (key, a) ∷ back) search_start search_end size (2 ^ k) ≢ none
  unfolding first_fit
  first_fit_complete [] key a back h = ground arith
  first_fit_complete ((j, b) ∷ front) key a back h =
      ground (arith, first_fit_complete front key a back h)

  -- On a tiled memory, for a positive size, an alignment that is a power of two and sums that stay
  -- below 2 ^ 64: if some free area holds an aligned range of size bytes inside the search window,
  -- allocate returns an address.
  pub allocate_complete :
      (front : Areas) (key : PAddr) (a : PhysicalMemoryArea) (back : Areas) (p : PAddr)
      → self.areas ≡ front ++ (key, a) ∷ back
      → a.dma_type ≡ free_memory
      → p % 2 ^ k ≡ 0
      → a.base ≤ p
      → p + size ≤ a.base + a.size
      → search_start ≤ p
      → p + size ≤ search_end
      → (addr : PAddr) × ((allocate self search_start search_end size requested_alignment).1
          ≡ some addr)
  allocate_complete front key a back p split is_free p_aligned lo hi start_le end_le =
      let inside = Tiled-member 0 front key a back (rw split at valid.tiled) in
      let m = max a.base search_start in
      let b = align_up_bounds k small m (omega arith) in
      let l = align_up_least k small m p (omega arith) (omega arith) p_aligned in
      let fit : fits a search_start search_end size (2 ^ k) ≡ true = ground arith in
      elim (Option-cases (first_fit self.areas search_start search_end size (2 ^ k))) [
        | inl missed ↦ absurd (first_fit_complete front key a back fit (rw split at missed))
        | inr (addr, hit) ↦
            let f =
              first_fit-Found self.total_size search_start search_end size (2 ^ k) addr 0 self.areas
                valid.tiled hit in
            (addr, rw (allocate_found addr f hit))
      ]
