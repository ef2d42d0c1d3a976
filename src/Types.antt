-- ===== src/Types.antt =====
-- crates/common/src/types.rs: addresses, page sizes and the alignment helpers. A `u64` is a native
-- number below 2 ^ 64, and arithmetic wraps as it does in a release build.
pub mod Align
mod Tests
use anotherps4_emulator.Common.{ℕ, ◌+◌, ◌-◌, ◌*◌, ◌%◌, ◌^◌, Bool, ◌==◌, bit_and}

-- The number of values of a `u64`.
abbrev pub u64_mod : ℕ
u64_mod = 2 ^ 64

abbrev pub VAddr : Type 0
VAddr = ℕ

abbrev pub PAddr : Type 0
PAddr = ℕ

abbrev pub page_size : ℕ
page_size = 16 * 1024

abbrev pub max_gpu_address : VAddr
max_gpu_address = 0x10_0000_0000

abbrev pub user_size : ℕ
user_size = 128 * 1024 * 1024 * 1024

-- `a + b` and `a - b` on `u64`.
abbrev pub add64 : ℕ → ℕ → ℕ
add64 a b = (a + b) % u64_mod

abbrev pub sub64 : ℕ → ℕ → ℕ
sub64 a b = (a + u64_mod - b) % u64_mod

-- `!a` on `u64`.
abbrev pub not64 : ℕ → ℕ
not64 a = u64_mod - 1 - a

unfoldable pub align_up : ℕ → ℕ → ℕ
align_up value alignment = let mask = sub64 alignment 1 in bit_and (add64 value mask) (not64 mask)

unfoldable pub align_down : ℕ → ℕ → ℕ
align_down value alignment = bit_and value (not64 (sub64 alignment 1))

unfoldable pub is_aligned : ℕ → ℕ → Bool
is_aligned value alignment = bit_and value (sub64 alignment 1) == 0
