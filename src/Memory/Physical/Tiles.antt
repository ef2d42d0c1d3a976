-- ===== src/Memory/Physical/Tiles.antt =====
-- The invariant of the allocator of crates/core/src/memory/physical_memory.rs, that the areas tile the
-- memory from 0 to its total size, and its abstract view, the state of each address.
use anotherps4_emulator.Common.{
  ℕ, ◌+◌, ◌≤◌, ◌<◌, ◌^◌, ◌≡◌, refl, [], ◌∷◌, ◌++◌, Option, none, some, Bool, ◌&&◌, ltb, leb,
  if◌then◌else◌, arith,
}
use anotherps4_emulator.Common.Int.{ℤ, pos}
use anotherps4_emulator.Types.{PAddr}
use anotherps4_emulator.Memory.Map.{Below, StartsAbove}
use anotherps4_emulator.Memory.Physical.{
  PhysicalMemoryType, PhysicalMemoryManager, Areas, free_memory, new,
}

-- The areas follow one another from `start` to `stop` with no gap, each under its base address and
-- of at least one byte.
abbrev pub Tiled : PAddr → Areas → PAddr → Type 0
Tiled start [] stop = start ≡ stop
Tiled start ((key, a) ∷ rest) stop =
    (key ≡ start) × (a.base ≡ start) × (0 < a.size) × Tiled (start + a.size) rest stop

pub record IsTiled (self : PhysicalMemoryManager) : Type 0 where
  pub tiled : Tiled 0 self.areas self.total_size
  pub bounded : self.total_size < 2 ^ 64

-- The memory type and the state of an address; `none` outside the memory.
abbrev pub AddressState : Type 0
AddressState = ℤ × PhysicalMemoryType

abbrev pub within : PAddr → ℕ → PAddr → Bool
within base size x = leb base x && ltb x (base + size)

abbrev pub state_at : Areas → PAddr → Option AddressState
state_at [] x = none
state_at ((_, a) ∷ rest) x =
    if within a.base a.size x then some (a.memory_type, a.dma_type) else state_at rest x

pub Tiled-le : (s : PAddr) (m : Areas) (e : PAddr) → Tiled s m e → s ≤ e
Tiled-le s [] e t = omega arith
Tiled-le s ((k, a) ∷ m) e t = omega (arith, Tiled-le (s + a.size) m e t.3)

pub Tiled-Below : (s : PAddr) (m : Areas) (e c : PAddr) → Tiled s m e → e ≤ c → Below c m
Tiled-Below s [] e c t h = tt
Tiled-Below s ((k, a) ∷ m) e c t h =
    (omega (arith, Tiled-le (s + a.size) m e t.3), Tiled-Below (s + a.size) m e c t.3 h)

pub Tiled-StartsAbove :
    (s : PAddr) (m : Areas) (e c : PAddr) → Tiled s m e → c < s → StartsAbove c m
Tiled-StartsAbove s [] e c t h = tt
Tiled-StartsAbove s ((k, a) ∷ m) e c t h = omega arith

pub Tiled-append :
    (s : PAddr) (m : Areas) (b : PAddr) (m' : Areas) (e : PAddr)
    → Tiled s m b
    → Tiled b m' e
    → Tiled s (m ++ m') e
Tiled-append s [] b m' e t t' = ground (arith, t')
Tiled-append s ((k, a) ∷ m) b m' e t t' = (t.0, t.1, t.2, Tiled-append (s + a.size) m b m' e t.3 t')

-- Below its end a tiled front decides; from its end on, it says nothing.
pub state_at_front :
    (s : PAddr) (m : Areas) (b : PAddr) (m' : Areas) (x : PAddr)
    → Tiled s m b
    → b ≤ x
    → state_at (m ++ m') x ≡ state_at m' x
state_at_front s [] b m' x t h = refl
state_at_front s ((k, a) ∷ m) b m' x t h =
    ground (arith, Tiled-le (s + a.size) m b t.3, state_at_front (s + a.size) m b m' x t.3 h)

-- Two maps with the same tiled front agree below its end.
pub state_at_below :
    (s : PAddr) (m : Areas) (b : PAddr) (m' m'' : Areas) (x : PAddr)
    → Tiled s m b
    → s ≤ x
    → x < b
    → state_at (m ++ m') x ≡ state_at (m ++ m'') x
state_at_below s [] b m' m'' x t lo h = absurd (omega arith)
state_at_below s ((k, a) ∷ m) b m' m'' x t lo h =
    ground (arith, state_at_below (s + a.size) m b m' m'' x t.3)

-- Below the start of a tiled map there is nothing.
pub state_at_before :
    (s : PAddr) (m : Areas) (e x : PAddr) → Tiled s m e → x < s → state_at m x ≡ none
state_at_before s [] e x t h = refl
state_at_before s ((k, a) ∷ m) e x t h = ground (arith, state_at_before (s + a.size) m e x t.3)

-- New builds, for a positive size below 2 ^ 64, a tiled memory in which every address below the size
-- is free and of type 0, and no other address belongs to it.
pub new_lem :
    (total_size : ℕ)
    → 0 < total_size
    → total_size < 2 ^ 64
    → IsTiled (new total_size)
      × ((x : PAddr)
          → state_at (new total_size).areas x
            ≡ (if ltb x total_size then some (pos 0, free_memory) else none))
unfolding new
new_lem total_size h bound = (ground arith, λ x. ground arith)
