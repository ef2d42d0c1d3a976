-- ===== src/Common/Reader.antt =====
-- Readers of bytes: a `Cursor` stands for the bytes from its position on. The integer reads of byteorder's
-- `ReadBytesExt` are a parameter, `ByteOrder`, with what its documentation says of the little-endian ones;
-- `read_exact` is the standard library's. At the end of the bytes they give the error `eof`.
pub mod RoundTrip
use Prim.Native.Nat.{ℕ, zero, suc, ◌+◌, ◌*◌, ◌/◌, ◌%◌, ◌^◌, ◌<◌}
use mathlib.Core.Path.{◌≡◌, refl}
use mathlib.Core.Bool.{Bool, true, false}
use mathlib.Core.List.{List, [], ◌∷◌, ◌++◌}
use mathlib.Core.Option.{Option, none, some}
use anotherps4_emulator.Common.Result.{Result, ok, err, bind}

abbrev pub Bytes : Type 0
Bytes = List ℕ

abbrev pub Reader : Type 0 → Type 0 → Type 0
Reader E A = Bytes → Result E (A × Bytes)

abbrev pub pure : {E A : Type 0} → A → Reader E A
pure a bytes = ok (a, bytes)

abbrev pub run : {E A : Type 0} → Bytes → Reader E A → Result E (A × Bytes)
run bytes reader = reader bytes

module _ {E A B : Type 0} where
  infixl 1 ◌>>=◌
  abbrev pub ◌>>=◌ : Reader E A → (A → Reader E B) → Reader E B
  p >>= f = λ bytes. bind (p bytes) λ (a, rest). f a rest

infixl 1 ◌>>◌
abbrev pub ◌>>◌ : {E B : Type 0} → Reader E (Unit {0}) → Reader E B → Reader E B
p >> q = p >>= λ _. q

-- An early return with an error unless the test holds.
abbrev pub guard : {E : Type 0} → Bool → E → Reader E (Unit {0})
guard true e bytes = ok (tt, bytes)
guard false e bytes = err e

-- `read_u8`, `read_u16`, `read_u32` and `read_u64` for 1, 2, 4 and 8 bytes; `none` is the end of the bytes.
pub record ByteOrder : Type 0 where
  pub read : ℕ → Bytes → Option (ℕ × Bytes)

-- The integer that the first `n` bytes are, least significant byte first.
abbrev pub little_endian : ℕ → Bytes → Option (ℕ × Bytes)
little_endian zero bytes = some (0, bytes)
little_endian (suc n) [] = none
little_endian (suc n) (b ∷ bytes) = elim (little_endian n bytes) [
  | none ↦ none
  | some (v, rest) ↦ some (b + 256 * v, rest)
]

pub record IsLittleEndian (order : ByteOrder) : Type 0 where
  pub reads : (n : ℕ) (bytes : Bytes) → order.read n bytes ≡ little_endian n bytes

unfoldable pub read_le : ByteOrder → {E : Type 0} → E → ℕ → Reader E ℕ
read_le order eof n bytes = elim (order.read n bytes) [
  | none ↦ err eof
  | some (v, rest) ↦ ok (v, rest)
]

-- `read_exact`, into a buffer of `n` bytes.
unfoldable pub read_exact : {E : Type 0} → E → ℕ → Reader E Bytes
read_exact eof zero bytes = ok ([], bytes)
read_exact eof (suc n) [] = err eof
read_exact eof (suc n) (b ∷ bytes) = bind (read_exact eof n bytes) λ (bs, rest). ok (b ∷ bs, rest)
