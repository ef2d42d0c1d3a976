-- ===== src/Common/Reader/RoundTrip.antt =====
-- Writing what the readers read: little-endian integers in front of further bytes.
use Prim.Native.Nat.{ℕ, zero, suc, ◌+◌, ◌*◌, ◌/◌, ◌%◌, ◌^◌, ◌<◌}
use mathlib.Core.Path.{◌≡◌, refl}
use mathlib.Core.List.{[], ◌∷◌, ◌++◌}
use native.Mathlib.Omega.{arith}
use native.Mathlib.Nat.{pow-suc}
use mathlib.Core.Option.{some}
use anotherps4_emulator.Common.Lists.{length, drop}
use anotherps4_emulator.Common.Result.{ok}
use anotherps4_emulator.Common.Reader.{
  Bytes, ByteOrder, little_endian, IsLittleEndian, read_le, read_exact,
}

-- `v` as `n` bytes, in front of `rest`.
unfoldable pub put_le : ℕ → ℕ → Bytes → Bytes
put_le zero v rest = rest
put_le (suc n) v rest = (v % 256) ∷ put_le n (v / 256) rest

little_endian-put_le :
    (n v : ℕ) (rest : Bytes) → v < 256 ^ n → little_endian n (put_le n v rest) ≡ some (v, rest)
unfolding put_le
little_endian-put_le zero v rest h = ground arith
little_endian-put_le (suc n) v rest h =
    let p = pow-suc 256 n in
    let whole : v % 256 + 256 * (v / 256) ≡ v = omega arith in
    rw (little_endian-put_le n (v / 256) rest (omega arith), whole) refl

module _ {E : Type 0} (eof : E) where
  pub read_le-put_le :
      (order : ByteOrder)
      → IsLittleEndian order
      → (n v : ℕ) (rest : Bytes) → v < 256 ^ n
      → read_le order eof n (put_le n v rest) ≡ ok (v, rest)
  unfolding read_le
  read_le-put_le order le n v rest h =
      rw (le.reads n (put_le n v rest), read_le, little_endian-put_le n v rest h) refl

  pub read_exact-append :
      (n : ℕ) (bytes rest : Bytes)
      → n ≡ length bytes
      → read_exact eof n (bytes ++ rest) ≡ ok (bytes, rest)
  unfolding read_exact
  read_exact-append zero [] rest h = refl
  read_exact-append zero (b ∷ bytes) rest h = absurd (omega arith)
  read_exact-append (suc n) [] rest h = absurd (omega arith)
  read_exact-append (suc n) (b ∷ bytes) rest h =
      rw (read_exact-append n bytes rest (omega arith)) refl

pub length-put_le : (n v : ℕ) (rest : Bytes) → length (put_le n v rest) ≡ n + length rest
unfolding put_le
length-put_le zero v rest = omega arith
length-put_le (suc n) v rest = omega (arith, length-put_le n (v / 256) rest)

-- Bytes that were written are skipped.
pub drop-put_le : (k n m v : ℕ) (rest : Bytes) → k ≡ n + m → drop k (put_le n v rest) ≡ drop m rest
unfolding put_le
drop-put_le k zero m v rest e = let e' : k ≡ m = omega arith in rw e' refl
drop-put_le zero (suc n) m v rest e = absurd (omega arith)
drop-put_le (suc k) (suc n) m v rest e = drop-put_le k n m (v / 256) rest (omega arith)

pub drop-bytes :
    (k m : ℕ) (bytes rest : Bytes) → k ≡ length bytes + m → drop k (bytes ++ rest) ≡ drop m rest
drop-bytes k m [] rest e = let e' : k ≡ m = omega arith in rw e' refl
drop-bytes zero m (b ∷ bytes) rest e = absurd (omega arith)
drop-bytes (suc k) m (b ∷ bytes) rest e = drop-bytes k m bytes rest (omega arith)
