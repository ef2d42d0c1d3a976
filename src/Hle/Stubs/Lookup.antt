-- ===== src/Hle/Stubs/Lookup.antt =====
-- The stubs' addresses, indices and names (crates/core/src/hle/stubs.rs).
use anotherps4_emulator.Common.{
  ℕ, ◌+◌, ◌*◌, ◌^◌, ◌≤◌, ◌<◌, ◌≡◌, refl, [], ◌∷◌, ◌++◌, none, some, true, leb, ltb, get_elem?,
  length, length-append, get_elem?-append, get_elem?-append_left, arith, Bool-cases, inl, inr,
  if◌then◌else◌,
}
use anotherps4_emulator.Types.{VAddr}
use anotherps4_emulator.Hle.Stubs.{
  StubAllocator, Name, allocate_stub, get_stub_name, get_stub_index, is_stub, next_stub,
  stub_region_size, max_stubs,
}

-- The region lies inside the address space, and each allocated stub has a name.
pub record IsWellFormed (alloc : StubAllocator) : Type 0 where
  pub region : alloc.base + stub_region_size < 2 ^ 64
  pub room : alloc.used ≤ max_stubs
  pub named : length alloc.names ≡ alloc.used

-- The address of the `idx`th stub.
abbrev pub stub_address : StubAllocator → ℕ → VAddr
stub_address alloc idx = alloc.base + idx * 16

-- On a well-formed allocator, every address inside the slot idx of the region leads to idx when the
-- slot is allocated, and to nothing when it is not.
pub get_stub_index_lem :
    (alloc : StubAllocator) (idx byte : ℕ)
    → IsWellFormed alloc
    → idx < max_stubs
    → byte < 16
    → get_stub_index (some alloc) (stub_address alloc idx + byte)
      ≡ (if ltb idx alloc.used then some idx else none)
unfolding get_stub_index
get_stub_index_lem alloc idx byte w i b = let r = w.region in let m = w.room in ground arith

-- While there is room, a new stub of a well-formed allocator gets the next slot, its address is
-- recognised as a stub and leads to its index and its name, and the allocator stays well formed.
pub allocate_stub_lem :
    (alloc : StubAllocator) (name : Name)
    → IsWellFormed alloc
    → alloc.used < max_stubs
    → (alloc' : StubAllocator) × (allocate_stub (some alloc) name
        ≡ (stub_address alloc alloc.used, some alloc'))
      × IsWellFormed alloc'
      × (is_stub (some alloc') (stub_address alloc alloc.used) ≡ true)
      × (get_stub_index (some alloc') (stub_address alloc alloc.used) ≡ some alloc.used)
      × (get_stub_name (some alloc') alloc.used ≡ name)
unfolding allocate_stub next_stub is_stub get_stub_index get_stub_name
allocate_stub_lem alloc name w m =
    let alloc' : StubAllocator = record {
      base = alloc.base;
      used = alloc.used + 1;
      names = alloc.names ++ (name ∷ []);
    } in
    let r = w.region in
    let n = w.named in
    let w' : IsWellFormed alloc' = record {
      region = r;
      room = omega arith;
      named = omega (arith, length-append alloc.names (name ∷ []));
    } in
    let g : get_elem? (alloc.names ++ (name ∷ [])) alloc.used ≡ some name =
      rw (← n) (get_elem?-append alloc.names name []) in
    (alloc', ground arith, w', ground arith, ground arith, rw (g) refl)

-- A new stub of a well-formed allocator leaves the earlier ones as they are: each address inside their
-- slots still leads to their indices and names.
pub allocate_stub_keeps :
    (alloc : StubAllocator) (name : Name) (idx byte : ℕ)
    → IsWellFormed alloc
    → idx < alloc.used
    → byte < 16
    → let after = (allocate_stub (some alloc) name).1 in
      (get_stub_index after (stub_address alloc idx + byte) ≡ some idx)
      × (get_stub_name after idx ≡ get_stub_name (some alloc) idx)
unfolding allocate_stub next_stub is_stub get_stub_index get_stub_name
allocate_stub_keeps alloc name idx byte w i b =
    let r = w.region in
    let m = w.room in
    let n = w.named in
    elim (Bool-cases (leb max_stubs alloc.used)) [
      | inl full ↦ rw (full) (ground arith, refl)
      | inr free ↦
          rw (free, get_elem?-append_left alloc.names (name ∷ []) idx (omega arith))
            (ground arith, refl)
    ]
