-- ===== src/Memory/Map.antt =====
-- `std::collections::BTreeMap` with `u64` keys, as the managers of crates/core/src/memory use it: an
-- association list in ascending order of the keys.
use anotherps4_emulator.Common.{
  ℕ, ◌≤◌, ◌<◌, ◌≡◌, refl, List, [], ◌∷◌, ◌++◌, Option, none, some, ltb, ◌==◌, if◌then◌else◌, arith,
}

abbrev pub Map {ℓ} : Type ℓ → Type ℓ
Map V = List (ℕ × V)

module _ {ℓ} {V : Type ℓ} where
  -- `get`
  abbrev pub get : ℕ → Map V → Option V
  get k [] = none
  get k ((j, v) ∷ m) = if j == k then some v else get k m

  -- `insert`, which replaces the value of a key that is there.
  abbrev pub insert : ℕ → V → Map V → Map V
  insert k v [] = (k, v) ∷ []
  insert k v ((j, w) ∷ m) =
      if ltb k j then (k, v) ∷ (j, w) ∷ m else if j == k then (k, v) ∷ m else (j, w) ∷ insert k v m

  -- `remove`
  abbrev pub remove : ℕ → Map V → Map V
  remove k [] = []
  remove k ((j, v) ∷ m) = if j == k then m else (j, v) ∷ remove k m

  -- A write through `get_mut`.
  abbrev pub modify : ℕ → (V → V) → Map V → Map V
  modify k f [] = []
  modify k f ((j, v) ∷ m) = if j == k then (j, f v) ∷ m else (j, v) ∷ modify k f m

  abbrev pub keys : Map V → List ℕ
  keys [] = []
  keys ((j, v) ∷ m) = j ∷ keys m

  -- Every key lies below `c`; the first key, if there is one, lies above `c`.
  abbrev pub Below : ℕ → Map V → Type 0
  Below c [] = Unit
  Below c ((j, v) ∷ m) = (j < c) × Below c m

  abbrev pub StartsAbove : ℕ → Map V → Type 0
  StartsAbove c [] = Unit
  StartsAbove c ((j, v) ∷ m) = c < j

  -- An operation at `c` passes over a front whose keys lie below `c`.
  pub get-skip : (c : ℕ) (front m : Map V) → Below c front → get c (front ++ m) ≡ get c m
  get-skip c [] m h = refl
  get-skip c ((j, v) ∷ front) m h = ground (arith, get-skip c front m h.1)

  pub insert-skip :
      (c : ℕ) (v : V) (front m : Map V)
      → Below c front
      → insert c v (front ++ m) ≡ front ++ insert c v m
  insert-skip c v [] m h = refl
  insert-skip c v ((j, w) ∷ front) m h = ground (arith, insert-skip c v front m h.1)

  pub remove-skip :
      (c : ℕ) (front m : Map V) → Below c front → remove c (front ++ m) ≡ front ++ remove c m
  remove-skip c [] m h = refl
  remove-skip c ((j, w) ∷ front) m h = ground (arith, remove-skip c front m h.1)

  pub modify-skip :
      (c : ℕ) (f : V → V) (front m : Map V)
      → Below c front
      → modify c f (front ++ m) ≡ front ++ modify c f m
  modify-skip c f [] m h = refl
  modify-skip c f ((j, w) ∷ front) m h = ground (arith, modify-skip c f front m h.1)

  pub insert_front : (c : ℕ) (v : V) (m : Map V) → StartsAbove c m → insert c v m ≡ (c, v) ∷ m
  insert_front c v [] h = refl
  insert_front c v ((j, w) ∷ m) h = ground arith

  pub Below-le : (c d : ℕ) (m : Map V) → c ≤ d → Below c m → Below d m
  Below-le c d [] le h = tt
  Below-le c d ((j, w) ∷ m) le h = (omega arith, Below-le c d m le h.1)

  pub Below-append : (c : ℕ) (m m' : Map V) → Below c m → Below c m' → Below c (m ++ m')
  Below-append c [] m' h h' = h'
  Below-append c ((j, w) ∷ m) m' h h' = (h.0, Below-append c m m' h.1 h')
