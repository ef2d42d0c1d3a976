-- ===== src/Memory/Physical/Allocate.antt =====
-- `PhysicalMemoryManager::allocate` and `carve_area`, of crates/core/src/memory/physical_memory.rs, against
-- the state of each address.
use anotherps4_emulator.Common.{
  ℕ, ◌+◌, ◌-◌, ◌≤◌, ◌<◌, ◌^◌, ◌≡◌, refl, sym, ◌∙◌, ap, [], ◌∷◌, ◌++◌, some, true, ltb,
  if◌then◌else◌, arith, Bool-cases, inl, inr,
}
use anotherps4_emulator.Types.{PAddr}
use anotherps4_emulator.Memory.Map.{
  get, insert, remove, modify, insert_front, get-skip, insert-skip, remove-skip, modify-skip,
  Below-le,
}
use anotherps4_emulator.Memory.Physical.{
  PhysicalMemoryArea, Areas, first_fit, fits, candidate, mark, allocated, carve_area, containing,
  put_back,
}
use anotherps4_emulator.Memory.Physical.Tiles.{
  Tiled, state_at, within, Tiled-Below, Tiled-StartsAbove, Tiled-le, state_at_front, state_at_below,
}

containing-skip :
    (s : PAddr) (front : Areas) (b : PAddr) (m : Areas) (addr : PAddr)
    → Tiled s front b
    → b ≤ addr
    → addr < 2 ^ 64
    → containing (front ++ m) addr ≡ containing m addr
unfolding containing
containing-skip s [] b m addr t h bound = refl
containing-skip s ((k, a) ∷ front) b m addr t h bound = ground (
  arith,
  Tiled-le (s + a.size) front b t.3,
  containing-skip (s + a.size) front b m addr t.3 h bound,
)

-- What is left of an area when `size` bytes at `addr` are allocated in it.
abbrev pub before : PhysicalMemoryArea → PAddr → Areas
before a addr = if ltb a.base addr then (a.base, record a { size = addr - a.base }) ∷ [] else []

abbrev pub after : PhysicalMemoryArea → PAddr → Areas → Areas
after a stop back =
    if ltb stop (a.base + a.size)
    then (stop, record a { base = stop; size = a.base + a.size - stop }) ∷ back
    else back

abbrev pub taken : PhysicalMemoryArea → PAddr → ℕ → PhysicalMemoryArea
taken a addr size = record a { base = addr; size = size; dma_type = allocated }

abbrev pub pieces : PhysicalMemoryArea → Areas → PAddr → ℕ → Areas
pieces a back addr size = before a addr ++ (addr, taken a addr size) ∷ after a (addr + size) back

-- An allocation inside the area `a`, which lies between a front and a back.
module _ (front : Areas) (a : PhysicalMemoryArea) (back : Areas) (stop addr : PAddr) (size : ℕ)
    (tiled : Tiled 0 front a.base) (tiled' : Tiled (a.base + a.size) back stop)
    (bounded : stop < 2 ^ 64) (sized : 0 < size) (low : a.base ≤ addr)
    (high : addr + size ≤ a.base + a.size) where
  carve_head : modify addr (mark allocated) (put_back a back addr size) ≡ pieces a back addr size
  carve_head =
      let s = Tiled-le _ back stop tiled' in
      ground (
        arith,
        insert_front a.base (record a { size = addr - a.base }) back
            (Tiled-StartsAbove _ back stop a.base tiled' (omega arith)),
        insert_front addr (record a { base = addr; size = size }) back
            (Tiled-StartsAbove _ back stop addr tiled' (omega arith)),
        λ (h : addr + size < a.base + a.size).
            insert_front (addr + size)
              (record a { base = addr + size; size = a.base + a.size - (addr + size) }) back
              (Tiled-StartsAbove _ back stop (addr + size) tiled' h),
      )

  put_back-skip : put_back a (front ++ back) addr size ≡ front ++ put_back a back addr size
  put_back-skip =
      let s = Tiled-le _ back stop tiled' in
      let f = Tiled-Below 0 front a.base a.base tiled (omega arith) in
      ground (
        arith,
        insert-skip a.base (record a { size = addr - a.base }) front back f,
        insert-skip addr (record a { base = addr; size = size }) front back
            (Below-le _ addr front low f),
        insert-skip addr (record a { base = addr; size = size }) front
            (insert a.base (record a { size = addr - a.base }) back) (Below-le _ addr front low f),
        insert-skip (addr + size)
            (record a { base = addr + size; size = a.base + a.size - (addr + size) }) front
            (insert addr (record a { base = addr; size = size }) back)
            (Below-le _ (addr + size) front (omega arith) f),
        insert-skip (addr + size)
            (record a { base = addr + size; size = a.base + a.size - (addr + size) }) front
            (insert addr (record a { base = addr; size = size })
              (insert a.base (record a { size = addr - a.base }) back))
            (Below-le _ (addr + size) front (omega arith) f),
      )

  -- Carving and marking replaces the area by its pieces and leaves the rest of the map alone.
  pub carve_area_lem :
      modify addr (mark allocated) (carve_area (front ++ (a.base, a) ∷ back) addr size)
      ≡ front ++ pieces a back addr size
  unfolding carve_area
  carve_area_lem =
      let s = Tiled-le _ back stop tiled' in
      let f = Tiled-Below 0 front a.base a.base tiled (omega arith) in
      let rest : Areas = (a.base, a) ∷ back in
      let here : containing rest addr ≡ some a.base = unfold containing in ground arith in
      let c : containing (front ++ rest) addr ≡ some a.base =
        containing-skip 0 front a.base rest addr tiled low (omega arith) ∙ here in
      let g : get a.base (front ++ rest) ≡ some a = get-skip a.base front rest f ∙ ground arith in
      let r : remove a.base (front ++ rest) ≡ front ++ back =
        remove-skip a.base front rest f ∙ ground arith in
      rw (c, carve_area, g, r)
        (ap (modify addr (mark allocated)) put_back-skip
          ∙ modify-skip addr (mark allocated) front (put_back a back addr size)
              (Below-le _ addr front low f)
          ∙ ap (λ m. front ++ m) carve_head)

  pub pieces-Tiled : Tiled a.base (pieces a back addr size) stop
  pieces-Tiled = ground (arith, tiled')

  -- The states after the replacement: allocated inside the range, as before outside.
  pub state_at-pieces :
      (x : PAddr)
      → state_at (front ++ pieces a back addr size) x ≡ (
          if within addr size x
          then some (a.memory_type, allocated)
          else state_at (front ++ (a.base, a) ∷ back) x)
  state_at-pieces x = elim (Bool-cases (ltb x a.base)) [
    | inl lt ↦
        state_at_below 0 front a.base (pieces a back addr size) ((a.base, a) ∷ back) x tiled
          (omega arith) (ground arith)
        ∙ ground arith
    | inr ge ↦
        state_at_front 0 front a.base (pieces a back addr size) x tiled (ground arith)
        ∙ ground (arith, state_at_front 0 front a.base ((a.base, a) ∷ back) x tiled (ground arith))
  ]

-- A successful search stops at an area that fits, between a tiled front and a tiled back.
pub record Found (start : PAddr) (areas : Areas) (stop search_start search_end : PAddr)
    (size alignment addr : ℕ) : Type 0 where
  pub front : Areas
  pub area : PhysicalMemoryArea
  pub back : Areas
  pub split : areas ≡ front ++ (area.base, area) ∷ back
  pub front_tiled : Tiled start front area.base
  pub back_tiled : Tiled (area.base + area.size) back stop
  pub fitting : fits area search_start search_end size alignment ≡ true
  pub chosen : candidate area search_start alignment ≡ addr

module _ (stop search_start search_end : PAddr) (size alignment addr : ℕ) where
  pub first_fit-Found :
      (start : PAddr) (areas : Areas)
      → Tiled start areas stop
      → first_fit areas search_start search_end size alignment ≡ some addr
      → Found start areas stop search_start search_end size alignment addr
  unfolding first_fit
  first_fit-Found start [] t h = absurd (cc)
  first_fit-Found start ((k, a) ∷ rest) t h =
      elim (Bool-cases (fits a search_start search_end size alignment)) [
        | inl yes_fit ↦ record {
          front = [];
          area = a;
          back = rest;
          split = ground arith;
          front_tiled = sym t.1;
          back_tiled = rw (t.1) t.3;
          fitting = yes_fit;
          chosen = ground arith;
        }
        | inr no_fit ↦
            let f = first_fit-Found (start + a.size) rest t.3 (ground arith) in
            record {
              front = (k, a) ∷ f.front;
              area = f.area;
              back = f.back;
              split = ground (arith, f.split);
              front_tiled = (t.0, t.1, t.2, f.front_tiled);
              back_tiled = f.back_tiled;
              fitting = f.fitting;
              chosen = f.chosen;
            }
      ]
