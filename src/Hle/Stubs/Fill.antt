-- ===== src/Hle/Stubs/Fill.antt =====
-- The bytes of a fresh stub region (crates/core/src/hle/stubs.rs, `StubAllocator::new`).
use anotherps4_emulator.Common.{
  ℕ, zero, suc, ◌+◌, ◌-◌, ◌*◌, ◌%◌, ◌≡◌, refl, [], some, Bool, leb, ltb, ◌&&◌, ◌==◌, arith,
  if◌then◌else◌, Bool-cases, inl, inr,
}
use mathlib.Core.Path.{subst}
use anotherps4_emulator.Types.{VAddr}
use anotherps4_emulator.Hle.Bytes.{Bytes, write}
use anotherps4_emulator.Hle.Stubs.{fill_nops, fill_slot, fill_slots, new, stub_region_size}

-- The byte at `offset` in a slot that traps: `ud2`, padded with `nop`s.
abbrev pub trap_byte : ℕ → ℕ
trap_byte offset = if offset == 0 then 0x0f else if offset == 1 then 0x0b else 0x90

-- `first ≤ a < first + size`
abbrev pub inside : ℕ → ℕ → ℕ → Bool
inside first size a = leb first a && ltb a (first + size)

fill_nops_lem :
    (slot left j : ℕ) (bytes : Bytes) (a : ℕ)
    → fill_nops slot left j bytes a ≡ (if inside (slot + j) left a then 0x90 else bytes a)
unfolding fill_nops
fill_nops_lem slot zero j bytes a = ground arith
fill_nops_lem slot (suc left) j bytes a =
    let h = fill_nops_lem slot left (j + 1) (write bytes (slot + j) 0x90) a in ground arith

fill_slot_lem :
    (slot : VAddr) (bytes : Bytes) (a : ℕ)
    → fill_slot slot bytes a ≡ (if inside slot 16 a then trap_byte (a - slot) else bytes a)
fill_slot_lem slot bytes a =
    let h = fill_nops_lem slot 14 2 (write (write bytes slot 0x0f) (slot + 1) 0x0b) a in
    ground arith

fill_slots_lem :
    (base : VAddr) (left i : ℕ) (bytes : Bytes) (a : ℕ)
    → fill_slots base left i bytes a
      ≡ (if inside (base + i * 16) (left * 16) a then trap_byte ((a - base) % 16) else bytes a)
unfolding fill_slots
fill_slots_lem base zero i bytes a = ground arith
fill_slots_lem base (suc left) i bytes a =
    let h = fill_slots_lem base left (i + 1) (fill_slot (base + i * 16) bytes) a in
    let s = fill_slot_lem (base + i * 16) bytes a in
    elim (Bool-cases (inside (base + i * 16) 16 a)) [
      | inl t ↦ let m : (a - base) % 16 ≡ a - (base + i * 16) = ground arith in ground arith
      | inr f ↦ ground arith
    ]

-- A fresh stub allocator has handed out nothing, each of its slots starts with ud2 and is padded with
-- nops, and no byte outside its region is changed.
pub new_traps :
    (base : VAddr) (bytes : Bytes)
    → (bytes' : Bytes) × (new (some base) bytes
        ≡ some (record { base = base; used = 0; names = [] }, bytes'))
      × ((a : ℕ)
          → bytes' a
            ≡ (if inside base stub_region_size a then trap_byte ((a - base) % 16) else bytes a))
unfolding new
new_traps base bytes =
    let e : base + 0 * 16 ≡ base = omega arith in
    (
      fill_slots base 4096 0 bytes,
      refl,
      λ a.
          subst
            (λ first.
              fill_slots base 4096 0 bytes a
              ≡ (if inside first stub_region_size a then trap_byte ((a - base) % 16) else bytes a))
            e (fill_slots_lem base 4096 0 bytes a),
    )
