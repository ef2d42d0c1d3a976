-- ===== src/Common/Bits.antt =====
-- Masking with `&` as arithmetic, at variables: the native operation has no laws of its own.
use Prim.Native.Nat.{
  ℕ, zero, suc, ◌+◌, ◌-◌, ◌*◌, ◌/◌, ◌%◌, ◌^◌, ◌≤◌, ◌<◌, min, bit_and, digits, bit_and-bitwise,
}
use mathlib.Core.Path.{◌≡◌, refl, ap, ◌∙◌}
use native.Mathlib.Omega.{arith}
use native.Mathlib.Nat.{pow-suc, one-le-pow, div-div-eq-div-mul, div-add-mod, mul_comm}

-- What `bit_and` stands for, with `rounds` binary digits of `x` looked at.
abbrev masked : (rounds x mask : ℕ) → ℕ
masked rounds x mask = digits (λ _. 0) min rounds x mask

-- The number of rounds does not matter once it is at least the number.
masked_rounds :
    (mask x rounds rounds' : ℕ)
    → x ≤ min rounds rounds'
    → masked rounds x mask ≡ masked rounds' x mask
masked_rounds mask zero zero zero le = refl
masked_rounds mask zero zero (suc r') le = refl
masked_rounds mask zero (suc r) zero le = refl
masked_rounds mask zero (suc r) (suc r') le = refl
masked_rounds mask (suc x) zero r' le = absurd (omega arith)
masked_rounds mask (suc x) (suc r) zero le = absurd (omega arith)
masked_rounds mask (suc x) (suc r) (suc r') le =
    let half = masked_rounds (mask / 2) (suc x / 2) r r' (omega arith) in omega arith

-- The lowest digit of `x & mask` is the product of the two, and the others are those of the halves.
pub bit_and_step :
    (x mask : ℕ) → bit_and x mask ≡ bit_and (x / 2) (mask / 2) * 2 + min (x % 2) (mask % 2)
bit_and_step zero mask =
    let whole = bit_and-bitwise 0 mask in let half = bit_and-bitwise 0 (mask / 2) in omega arith
bit_and_step (suc x) mask =
    let whole = bit_and-bitwise (suc x) mask in
    let half = bit_and-bitwise (suc x / 2) (mask / 2) in
    let same = masked_rounds (mask / 2) (suc x / 2) x (suc x / 2) (omega arith) in omega arith

-- No digit stays under the mask 0, whatever the bound on the number.
nothing_below : (bound x : ℕ) → x ≤ bound → bit_and x 0 ≡ 0
nothing_below bound zero le = refl
nothing_below zero (suc x) le = absurd (omega arith)
nothing_below (suc bound) (suc x) le =
    let step = bit_and_step (suc x) 0 in
    let half = nothing_below bound (suc x / 2) (omega arith) in omega arith

pub bit_and-zero : (x : ℕ) → bit_and x 0 ≡ 0
bit_and-zero x = nothing_below x x (omega arith)

pub pow_two_suc : (k : ℕ) → 2 ^ suc k ≡ 2 ^ k + 2 ^ k
pow_two_suc k = omega (arith, pow-suc 2 k)

pub pow_two_pos : (k : ℕ) → 1 ≤ 2 ^ k
pow_two_pos k = one-le-pow k 2 (omega arith)

-- Dividing by 2 ^ (k + 1) is halving and then dividing by 2 ^ k.
pub div_pow_suc : (x k : ℕ) → x / 2 ^ suc k ≡ x / 2 / 2 ^ k
div_pow_suc x k =
    rw (div-div-eq-div-mul x 2 (2 ^ k), pow-suc 2 k) (ap (λ d. x / d) (mul_comm (2 ^ k) 2))

-- `x & (2 ^ n - 1)` is the identity below 2 ^ n.
pub bit_and_ones : (n x : ℕ) → x < 2 ^ n → bit_and x (2 ^ n - 1) ≡ x
bit_and_ones zero x h = omega (arith, bit_and-zero x)
bit_and_ones (suc n) x h =
    let p = pow_two_suc n in
    let q = pow_two_pos n in
    let e : (2 ^ suc n - 1) / 2 ≡ 2 ^ n - 1 = omega arith in
    let o : (2 ^ suc n - 1) % 2 ≡ 1 = omega arith in
    omega (
      arith,
      bit_and_step x (2 ^ suc n - 1),
      ap (bit_and (x / 2)) e,
      bit_and_ones n (x / 2) (omega arith),
    )

pub mod_pow_suc : (x k : ℕ) → x % 2 ^ suc k ≡ x / 2 % 2 ^ k * 2 + x % 2
mod_pow_suc x k =
    let p = div-add-mod x (2 ^ suc k) in
    let q = div-add-mod (x / 2) (2 ^ k) in
    let r : 2 ^ suc k * (x / 2 ^ suc k) ≡ 2 * (2 ^ k * (x / 2 / 2 ^ k)) =
      rw (div_pow_suc, pow_two_suc) (omega arith) in
    omega arith

-- `x & (2 ^ k - 1)` is the remainder by 2 ^ k.
pub bit_and_low : (k x : ℕ) → bit_and x (2 ^ k - 1) ≡ x % 2 ^ k
bit_and_low zero x = omega (arith, bit_and-zero x)
bit_and_low (suc k) x =
    let p = pow_two_suc k in
    let q = pow_two_pos k in
    let e : (2 ^ suc k - 1) / 2 ≡ 2 ^ k - 1 = omega arith in
    let o : (2 ^ suc k - 1) % 2 ≡ 1 = omega arith in
    omega (
      arith,
      bit_and_step x (2 ^ suc k - 1),
      ap (bit_and (x / 2)) e,
      bit_and_low k (x / 2),
      mod_pow_suc x k,
    )

-- `x & (2 ^ n - 2 ^ k)` clears the lowest k bits of a number below 2 ^ n.
pub bit_and_high : (n k x : ℕ) → k ≤ n → x < 2 ^ n → bit_and x (2 ^ n - 2 ^ k) ≡ x / 2 ^ k * 2 ^ k
bit_and_high n zero x le h = bit_and_ones n x h ∙ omega arith
bit_and_high zero (suc k) x le h = absurd (omega arith)
bit_and_high (suc n) (suc k) x le h =
    let p = pow_two_suc k in
    let p' = pow_two_suc n in
    let e : (2 ^ suc n - 2 ^ suc k) / 2 ≡ 2 ^ n - 2 ^ k = omega arith in
    let o : (2 ^ suc n - 2 ^ suc k) % 2 ≡ 0 = omega arith in
    let ih = bit_and_high n k (x / 2) (omega arith) (omega arith) in
    let r : x / 2 ^ suc k * 2 ^ suc k ≡ 2 * (x / 2 / 2 ^ k * 2 ^ k) =
      rw (div_pow_suc, pow_two_suc) (omega arith) in
    omega (arith, bit_and_step x (2 ^ suc n - 2 ^ suc k), ap (bit_and (x / 2)) e)
