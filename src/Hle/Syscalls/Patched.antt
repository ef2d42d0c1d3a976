-- ===== src/Hle/Syscalls/Patched.antt =====
-- What the patcher leaves behind (crates/core/src/hle/dispatcher.rs, `patch_syscalls`).
use anotherps4_emulator.Common.{
  ℕ, zero, suc, ◌+◌, ◌-◌, ◌%◌, ◌^◌, ◌≤◌, ◌<◌, ◌≡◌, refl, ap, Bool, true, false, ◌&&◌, ◌==◌, leb,
  ltb, arith, Bool-cases, inl, inr, if◌then◌else◌,
}
use anotherps4_emulator.Types.{VAddr, sub64}
use anotherps4_emulator.Hle.Bytes.{Bytes, write}
use anotherps4_emulator.Hle.Syscalls.{is_syscall, patch_from, patch_syscalls}

-- The second byte of a `syscall` that starts in the `left` bytes from `first` on stands at `a`.
abbrev pub hit : Bytes → VAddr → ℕ → VAddr → Bool
hit bytes first left a =
    ltb first a && leb a (first + left) && (bytes (a - 1) == 0x0f) && (bytes a == 0x05)

-- How many of the `left` bytes from `first` on start a `syscall`.
abbrev pub syscalls : Bytes → VAddr → ℕ → ℕ
syscalls bytes first zero = 0
syscalls bytes first (suc left) =
    (if is_syscall bytes first then 1 else 0) + syscalls bytes (first + 1) left

patch_from_lem :
    (memory_base : VAddr) (left offset : ℕ) (bytes : Bytes) (n : ℕ) (a : VAddr)
    → (patch_from memory_base left offset bytes n).0 a
      ≡ (if hit bytes (memory_base + offset) left a then 0x0b else bytes a)
unfolding patch_from
patch_from_lem memory_base zero offset bytes n a = ground arith
patch_from_lem memory_base (suc left) offset bytes n a =
    let b : VAddr = memory_base + offset in
    let same : (a ≡ b + 1 → bytes a ≡ bytes (b + 1))
        × (a - 1 ≡ b → bytes (a - 1) ≡ bytes b)
        × (a - 1 ≡ b + 1 → bytes (a - 1) ≡ bytes (b + 1)) =
      (ap bytes, ap bytes, ap bytes) in
    elim (Bool-cases (is_syscall bytes b)) [
      | inl s ↦
          let next : Bytes = write bytes (memory_base + (offset + 1)) 0x0b in
          let h = patch_from_lem memory_base left (offset + 1) next ((n + 1) % 2 ^ 32) a in
          rw (s, patch_from, h) (grind arith)
      | inr s ↦
          let h = patch_from_lem memory_base left (offset + 1) bytes n a in
          rw (s, patch_from, h) (grind arith)
    ]

syscalls_behind :
    (bytes : Bytes) (p byte first : VAddr) (left : ℕ)
    → p < first
    → syscalls (write bytes p byte) first left ≡ syscalls bytes first left
syscalls_behind bytes p byte first zero h = refl
syscalls_behind bytes p byte first (suc left) h =
    let rest = syscalls_behind bytes p byte (first + 1) left (omega arith) in ground arith

syscalls_from :
    (bytes : Bytes) (p : VAddr) (left : ℕ)
    → bytes p ≡ 0x05
    → syscalls (write bytes p 0x0b) p left ≡ syscalls bytes p left
syscalls_from bytes p zero h = refl
syscalls_from bytes p (suc left) h =
    let rest = syscalls_behind bytes p 0x0b (p + 1) left (omega arith) in ground arith

patch_from_count :
    (memory_base : VAddr) (left offset : ℕ) (bytes : Bytes) (n : ℕ)
    → n < 2 ^ 32
    → (patch_from memory_base left offset bytes n).1
      ≡ (n + syscalls bytes (memory_base + offset) left) % 2 ^ 32
unfolding patch_from
patch_from_count memory_base zero offset bytes n h = ground arith
patch_from_count memory_base (suc left) offset bytes n h =
    let b : VAddr = memory_base + offset in
    let q : memory_base + (offset + 1) ≡ b + 1 = omega arith in
    let byte : is_syscall bytes b ≡ true → bytes (b + 1) ≡ 0x05 = λ s. ground arith in
    elim (Bool-cases (is_syscall bytes b)) [
      | inl s ↦
          let next : Bytes = write bytes (b + 1) 0x0b in
          let rest =
            patch_from_count memory_base left (offset + 1) next ((n + 1) % 2 ^ 32) (omega arith) in
          let same = syscalls_from bytes (b + 1) left (byte s) in
          rw (s, patch_from, q, rest, q, same) (omega arith)
      | inr s ↦
          let rest = patch_from_count memory_base left (offset + 1) bytes n h in
          rw (s, patch_from, rest, q) (omega arith)
    ]

-- On a region of at least one and fewer than 2 ^ 64 bytes, the patcher turns the second byte of each
-- syscall that lies whole inside the region into the second byte of ud2, changes no other byte, and
-- answers how many there were, modulo 2 ^ 32.
pub patch_syscalls_lem :
    (memory_base : VAddr) (size : ℕ) (bytes : Bytes)
    → 1 ≤ size
    → size < 2 ^ 64
    → let after = patch_syscalls memory_base size bytes in
      ((a : VAddr) → after.0 a ≡ (if hit bytes memory_base (size - 1) a then 0x0b else bytes a))
      × (after.1 ≡ syscalls bytes memory_base (size - 1) % 2 ^ 32)
unfolding patch_syscalls
patch_syscalls_lem memory_base size bytes l u =
    let s : sub64 size 1 ≡ size - 1 = omega arith in
    let z : memory_base + 0 ≡ memory_base = omega arith in
    (
      λ a. let h = patch_from_lem memory_base (size - 1) 0 bytes 0 a in rw (s, h, z) refl,
      let h = patch_from_count memory_base (size - 1) 0 bytes 0 (omega arith) in
          rw (s, h, z) (omega arith),
    )

no_syscall_left :
    (hit_first : Bool) (x y : ℕ)
    → (((if hit_first then 0x0b else x) == 0x0f)
        && ((if (x == 0x0f) && (y == 0x05) then 0x0b else y) == 0x05))
      ≡ false
no_syscall_left hit_first x y = ground arith

-- Behind the patcher no syscall lies whole inside the region, whose size is below 2 ^ 64.
pub patch_syscalls_clears :
    (memory_base : VAddr) (size i : ℕ) (bytes : Bytes)
    → size < 2 ^ 64
    → i + 1 < size
    → is_syscall (patch_syscalls memory_base size bytes).0 (memory_base + i) ≡ false
patch_syscalls_clears memory_base size i bytes u l =
    let after = patch_syscalls_lem memory_base size bytes (omega arith) u in
    let first = after.0 (memory_base + i) in
    let second = after.0 (memory_base + i + 1) in
    let second' : (patch_syscalls memory_base size bytes).0 (memory_base + i + 1)
        ≡ (if is_syscall bytes (memory_base + i) then 0x0b else bytes (memory_base + i + 1)) =
      let back : memory_base + i + 1 - 1 ≡ memory_base + i = omega arith in
      let low : ltb memory_base (memory_base + i + 1) ≡ true = ground arith in
      let high : leb (memory_base + i + 1) (memory_base + (size - 1)) ≡ true = ground arith in
      rw (second, low, high, back) refl in
    rw (first, second') (no_syscall_left _ (bytes (memory_base + i)) (bytes (memory_base + i + 1)))
