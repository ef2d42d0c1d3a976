-- ===== src/Types/Align.antt =====
-- The alignment helpers of crates/common/src/types.rs as arithmetic, for an alignment that is a
-- power of two, and for the page size.
use anotherps4_emulator.Common.{
  ℕ, ◌+◌, ◌-◌, ◌*◌, ◌/◌, ◌%◌, ◌^◌, ◌≤◌, ◌<◌, ◌≡◌, ◌↔◌, true, ==_iff, arith,
}
use anotherps4_emulator.Common.Bits.{bit_and_low, bit_and_high, pow_two_pos}
use anotherps4_emulator.Types.{align_up, align_down, is_aligned, add64, sub64, not64, page_size}
use native.Mathlib.Nat.{pow-le-pow_right, div-add-mod, mul-mod_left}

multiple_le : (d a b : ℕ) → 0 < d → a % d ≡ 0 → b % d ≡ 0 → a < b + d → a ≤ b
multiple_le d a b pos_d ha hb lt =
    let e = div-add-mod a d in
    let f = div-add-mod b d in
    let q : a / d < b / d + 1 = grind arith in
    let le : d * (a / d) ≤ d * (b / d) = grind arith in omega arith

module _ (k : ℕ) (small : k < 64) where
  pow_lt : 2 ^ k < 2 ^ 64
  pow_lt =
      let p : 2 ^ k ≤ 2 ^ 63 =
        pow-le-pow_right {n = 2} (omega arith) {i = k} {j = 63} (omega arith) in
      omega arith

  sub64_one : sub64 (2 ^ k) 1 ≡ 2 ^ k - 1
  sub64_one = let p = pow_lt in let q = pow_two_pos k in omega arith

  not64_mask : not64 (sub64 (2 ^ k) 1) ≡ 2 ^ 64 - 2 ^ k
  not64_mask = let p = pow_lt in let q = pow_two_pos k in omega (arith, sub64_one)

  pub align_down-eq : (v : ℕ) → v < 2 ^ 64 → align_down v (2 ^ k) ≡ v / 2 ^ k * 2 ^ k
  unfolding align_down
  align_down-eq v h = rw not64_mask (bit_and_high 64 k v (omega arith) h)

  pub align_up-eq :
      (v : ℕ) → v + 2 ^ k ≤ 2 ^ 64 → align_up v (2 ^ k) ≡ (v + (2 ^ k - 1)) / 2 ^ k * 2 ^ k
  unfolding align_up
  align_up-eq v h =
      let p = pow_two_pos k in
      let e : add64 v (sub64 (2 ^ k) 1) ≡ v + (2 ^ k - 1) = rw sub64_one (omega arith) in
      rw (e, not64_mask) (bit_and_high 64 k (v + (2 ^ k - 1)) (omega arith) (omega arith))

  -- For an alignment 2 ^ k with k < 64, and where value + alignment does not pass 2 ^ 64, align_up
  -- returns a multiple of the alignment that is at least the value and less than one alignment above
  -- it.
  pub align_up_bounds :
      (v : ℕ)
      → v + 2 ^ k ≤ 2 ^ 64
      → (v ≤ align_up v (2 ^ k))
        × (align_up v (2 ^ k) < v + 2 ^ k)
        × (align_up v (2 ^ k) % 2 ^ k ≡ 0)
  align_up_bounds v h =
      let p = pow_two_pos k in
      let w = v + (2 ^ k - 1) in
      let d = div-add-mod w (2 ^ k) in
      let l : w % 2 ^ k < 2 ^ k = omega arith in
      rw (align_up-eq v h) (omega arith, omega arith, mul-mod_left _ (2 ^ k))

  -- For an alignment 2 ^ k with k < 64, and where value + alignment does not pass 2 ^ 64, no multiple
  -- of the alignment from the value on is smaller than what align_up returns.
  pub align_up_least :
      (v m : ℕ) → v + 2 ^ k ≤ 2 ^ 64 → v ≤ m → m % 2 ^ k ≡ 0 → align_up v (2 ^ k) ≤ m
  align_up_least v m h le e =
      let p = pow_two_pos k in
      let d = div-add-mod m (2 ^ k) in
      let u = div-add-mod (align_up v (2 ^ k)) (2 ^ k) in
      let b = align_up_bounds v h in
      multiple_le (2 ^ k) (align_up v (2 ^ k)) m p b.2 e (omega arith)

  -- For an alignment 2 ^ k with k < 64, align_down of a u64 returns a multiple of the alignment that
  -- is at most the value and more than the value less one alignment.
  pub align_down_bounds :
      (v : ℕ)
      → v < 2 ^ 64
      → (align_down v (2 ^ k) ≤ v)
        × (v < align_down v (2 ^ k) + 2 ^ k)
        × (align_down v (2 ^ k) % 2 ^ k ≡ 0)
  align_down_bounds v h =
      let p = pow_two_pos k in
      let d = div-add-mod v (2 ^ k) in
      let l : v % 2 ^ k < 2 ^ k = omega arith in
      rw (align_down-eq v h) (omega arith, omega arith, mul-mod_left _ (2 ^ k))

  -- For an alignment 2 ^ k with k < 64, is_aligned answers true exactly for the multiples of the
  -- alignment.
  pub is_aligned_iff : (v : ℕ) → (is_aligned v (2 ^ k) ≡ true) ↔ (v % 2 ^ k ≡ 0)
  unfolding is_aligned
  is_aligned_iff v = rw (sub64_one, bit_and_low k v) (==_iff _ 0)

-- At the page size: the least multiple of 16384 that is at least `v`.
pub align_up_page :
    (v : ℕ)
    → v + page_size ≤ 2 ^ 64
    → (v ≤ align_up v page_size)
      × (align_up v page_size < v + page_size)
      × (align_up v page_size % page_size ≡ 0)
align_up_page v h = align_up_bounds 14 (omega arith) v h

pub is_aligned_page : (v : ℕ) → (is_aligned v page_size ≡ true) ↔ (v % page_size ≡ 0)
is_aligned_page v = is_aligned_iff 14 (omega arith) v
