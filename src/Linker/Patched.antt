-- ===== src/Linker/Patched.antt =====
-- What the scan for the assertion traps of eboot.bin leaves (crates/core/src/linker/mod.rs).
use anotherps4_emulator.Common.{
  ℕ, zero, suc, ◌+◌, ◌-◌, ◌≤◌, ◌<◌, ◌≡◌, refl, ◌⊎◌, inl, inr, true, false, ◌==◌, ltb, arith,
  Bool-cases,
}
use anotherps4_emulator.Hle.Bytes
use anotherps4_emulator.Hle.Bytes.{write}
use anotherps4_emulator.Linker.Traps.{trap_at, patch_at, patch_traps}

-- A byte is as it was, or one of the bytes of the patch.
abbrev pub Patched : ℕ → ℕ → Type 0
Patched old now = (now ≡ old) ⊎ (now ≡ 0xB8) ⊎ (now ≡ 0x0A) ⊎ (now ≡ 0) ⊎ (now ≡ 0x90)

patch_at-Patched : (bytes : Bytes.Bytes) (addr at : ℕ) → Patched (bytes at) (patch_at bytes addr at)
patch_at-Patched bytes addr at = ground arith

patch_traps-Patched :
    (fuel base size i : ℕ) (bytes : Bytes.Bytes) (at : ℕ)
    → Patched (bytes at) (patch_traps fuel base size i bytes at)
unfolding patch_traps
patch_traps-Patched zero base size i bytes at = inl refl
patch_traps-Patched (suc fuel) base size i bytes at = elim (Bool-cases (ltb (i + 5) size)) [
  | inr stop ↦ rw (stop) (inl refl)
  | inl go ↦ elim (Bool-cases (trap_at bytes (base + i))) [
    | inl trap ↦
        let ih = patch_traps-Patched fuel base size (i + 6) (patch_at bytes (base + i)) at in
        let here = patch_at-Patched bytes (base + i) at in
        let both : Patched (bytes at)
            (patch_traps fuel base size (i + 6) (patch_at bytes (base + i)) at) =
          ground (arith, ih, here) in
        rw (go, trap) both
    | inr clean ↦ let ih = patch_traps-Patched fuel base size (i + 1) bytes at in rw (go, clean) ih
  ]
]

-- A trap behind the scan was there before it.
trap_at-Patched :
    (bytes now : Bytes.Bytes) (addr : ℕ)
    → ((at : ℕ) → Patched (bytes at) (now at))
    → trap_at now addr ≡ true
    → trap_at bytes addr ≡ true
trap_at-Patched bytes now addr p h =
    ground (arith, p addr, p (addr + 1), p (addr + 2), p (addr + 3), p (addr + 4), p (addr + 5))

-- No trap begins inside of a patch.
trap_at-patch_at :
    (bytes : Bytes.Bytes) (addr k : ℕ) → k < 6 → trap_at (patch_at bytes addr) (addr + k) ≡ false
trap_at-patch_at bytes addr k h = ground arith

patch_traps-kept :
    (fuel base size i : ℕ) (bytes : Bytes.Bytes) (addr : ℕ)
    → trap_at bytes addr ≡ false
    → trap_at (patch_traps fuel base size i bytes) addr ≡ false
patch_traps-kept fuel base size i bytes addr h =
    let now : Bytes.Bytes = patch_traps fuel base size i bytes in
    elim (Bool-cases (trap_at now addr)) [
      | inr clean ↦ clean
      | inl trap ↦
          let before =
            trap_at-Patched bytes now addr (patch_traps-Patched fuel base size i bytes) trap in
          absurd (cc (before, h))
    ]

-- After the scan of a region with fuel for each of its bytes, no assertion trap stands at any offset
-- from the start of the scan on that lies whole inside of the region.
pub patch_traps_clean :
    (fuel base size i p : ℕ) (bytes : Bytes.Bytes)
    → size ≤ i + fuel
    → i ≤ p
    → p + 5 < size
    → trap_at (patch_traps fuel base size i bytes) (base + p) ≡ false
unfolding patch_traps
patch_traps_clean zero base size i p bytes f l h = absurd (omega arith)
patch_traps_clean (suc fuel) base size i p bytes f l h =
    let go : ltb (i + 5) size ≡ true = ground arith in
    elim (Bool-cases (trap_at bytes (base + i))) [
      | inl trap ↦
          let bytes' : Bytes.Bytes = patch_at bytes (base + i) in
          let goal : trap_at (patch_traps fuel base size (i + 6) bytes') (base + p) ≡ false =
            elim (Bool-cases (ltb p (i + 6))) [
              | inl inside ↦
                  let k : ℕ = p - i in
                  let at : base + i + k ≡ base + p = ground arith in
                  let gone = trap_at-patch_at bytes (base + i) k (ground arith) in
                  patch_traps-kept fuel base size (i + 6) bytes' (base + p) (rw (← at) gone)
              | inr later ↦
                  patch_traps_clean fuel base size (i + 6) p bytes' (omega arith) (ground arith) h
            ] in
          rw (go, trap) goal
      | inr clean ↦
          let goal : trap_at (patch_traps fuel base size (i + 1) bytes) (base + p) ≡ false =
            elim (Bool-cases (p == i)) [
              | inl here ↦
                  let e : p ≡ i = ground arith in
                  patch_traps-kept fuel base size (i + 1) bytes (base + p) (rw (e) clean)
              | inr later ↦
                  patch_traps_clean fuel base size (i + 1) p bytes (omega arith) (ground arith) h
            ] in
          rw (go, clean) goal
    ]
