-- ===== src/Hle/Bytes.antt =====
-- The bytes that crates/core/src/hle writes through raw pointers: a function from an address to a byte.
pub mod Words
use anotherps4_emulator.Common.{
  ℕ, zero, suc, ◌+◌, ◌*◌, ◌/◌, ◌%◌, List, [], ◌∷◌, ◌==◌, if◌then◌else◌,
}

abbrev pub Bytes : Type 0
Bytes = ℕ → ℕ

-- `*address = byte`
abbrev pub write : Bytes → ℕ → ℕ → Bytes
write bytes address byte at = if at == address then byte else bytes at

-- The low `n` bytes of a value at an address, least significant byte first, and the value that stands there.
unfoldable pub store : ℕ → ℕ → ℕ → Bytes → Bytes
store zero address value bytes = bytes
store (suc n) address value bytes =
    store n (address + 1) (value / 256) (write bytes address (value % 256))

unfoldable pub fetch : ℕ → ℕ → Bytes → ℕ
fetch zero address bytes = 0
fetch (suc n) address bytes = bytes address + 256 * fetch n (address + 1) bytes

-- `copy_nonoverlapping` from a slice.
unfoldable pub copy : List ℕ → ℕ → Bytes → Bytes
copy [] address bytes = bytes
copy (b ∷ data_bytes) address bytes = copy data_bytes (address + 1) (write bytes address b)
