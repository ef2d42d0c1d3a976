-- ===== src/Formats/Psf/RoundTrip.antt =====
-- crates/formats/src/psf.rs against a writer of PARAM.SFO files: the index, the keys and the values read back.
use anotherps4_emulator.Common.{
  ℕ, zero, suc, ◌-◌, ◌/◌, ◌^◌, ◌<◌, ◌≡◌, ◌≢◌, refl, List, [], ◌∷◌, ◌++◌, true, false, ◌==◌, length,
  length-append, All, arith,
}
use anotherps4_emulator.Common.Int.{ℤ, pos, negsuc}
use anotherps4_emulator.Common.Result.{ok}
use anotherps4_emulator.Common.Reader.{Bytes, ByteOrder, IsLittleEndian}
use anotherps4_emulator.Common.Reader.RoundTrip.{put_le, read_le-put_le, read_exact-append}
use anotherps4_emulator.Common.Utf8.{is_utf8}
use anotherps4_emulator.Formats.Psf.{
  PsfValue, PsfEntryFormat, RawIndexEntry, binary, text, integer, io, read_key, read_index_entry,
  read_index, read_value, as_i32,
}

abbrev pub put_index_entry : RawIndexEntry → Bytes → Bytes
put_index_entry raw rest = put_le 2 raw.key_offset (
    put_le 2 raw.param_fmt
      (put_le 4 raw.param_len (put_le 4 raw.param_max_len (put_le 4 raw.data_offset rest))))

unfoldable pub put_index : List RawIndexEntry → Bytes → Bytes
put_index [] rest = rest
put_index (raw ∷ raws) rest = put_index_entry raw (put_index raws rest)

pub record FitsIndexEntry (raw : RawIndexEntry) : Type 0 where
  pub key_offset : raw.key_offset < 256 ^ 2
  pub param_fmt : raw.param_fmt < 256 ^ 2
  pub param_len : raw.param_len < 256 ^ 4
  pub param_max_len : raw.param_max_len < 256 ^ 4
  pub data_offset : raw.data_offset < 256 ^ 4

module _ (order : ByteOrder) (le : IsLittleEndian order) where
  pub read_index-put :
      (raws : List RawIndexEntry) (rest : Bytes)
      → All FitsIndexEntry raws
      → read_index order (length raws) (put_index raws rest) ≡ ok (raws, rest)
  unfolding read_index read_index_entry put_index
  read_index-put [] rest f = refl
  read_index-put (raw ∷ raws) rest f =
      let get = read_le-put_le io order le in
      let h = f.0 in
      rw
        (
          get 2 raw.key_offset _ h.key_offset,
          get 2 raw.param_fmt _ h.param_fmt,
          get 4 raw.param_len _ h.param_len,
          get 4 raw.param_max_len _ h.param_max_len,
          get 4 raw.data_offset _ h.data_offset,
          read_index-put raws rest f.1,
        )
        refl

-- A key has no byte 0.
pub read_key-put :
    (key rest : Bytes) → All (λ (b : ℕ). b ≢ 0) key → read_key (key ++ 0 ∷ rest) ≡ ok (key, rest)
unfolding read_key
read_key-put [] rest h = refl
read_key-put (b ∷ key) rest h =
    let more : (b == 0) ≡ false = ground (arith, h.0) in
    let ih = read_key-put key rest h.1 in rw (more, ih) refl

-- The number of an `i32`, as its bits.
abbrev pub as_u32 : ℤ → ℕ
as_u32 (pos n) = n
as_u32 (negsuc n) = 2 ^ 32 - 1 - n

abbrev pub format_value : PsfValue → ℕ
format_value (binary b) = 0x0004
format_value (text s) = 0x0204
format_value (integer v) = 0x0404

-- The bytes of a value; a text ends with a 0, which counts.
abbrev pub value_bytes : PsfValue → Bytes
value_bytes (binary b) = b
value_bytes (text s) = s ++ 0 ∷ []
value_bytes (integer v) = put_le 4 (as_u32 v) []

-- A text in UTF-8, and an integer of 32 bits.
abbrev pub IsValue : PsfValue → Type 0
IsValue (binary b) = Unit
IsValue (text s) = is_utf8 s ≡ true
IsValue (integer v) = (as_u32 v < 256 ^ 4) × (as_i32 (as_u32 v) ≡ v)

abbrev pub format : PsfValue → PsfEntryFormat
format (binary b) = PsfEntryFormat.binary_format
format (text s) = PsfEntryFormat.text_format
format (integer v) = PsfEntryFormat.integer_format

append-put_le : (n v : ℕ) (rest : Bytes) → put_le n v [] ++ rest ≡ put_le n v rest
unfolding put_le
append-put_le zero v rest = refl
append-put_le (suc n) v rest = rw (append-put_le n (v / 256) rest) refl

append-zero : (s rest : Bytes) → (s ++ 0 ∷ []) ++ rest ≡ s ++ 0 ∷ rest
append-zero [] rest = refl
append-zero (b ∷ s) rest = rw (append-zero s rest) refl

pub read_value-put :
    (order : ByteOrder)
    → IsLittleEndian order
    → (value : PsfValue) (rest : Bytes) → IsValue value
    → read_value order (format value) (length (value_bytes value)) (value_bytes value ++ rest)
      ≡ ok value
unfolding read_value
read_value-put order le (binary b) rest h = rw (read_exact-append io (length b) b rest refl) refl
read_value-put order le (text s) rest h =
    let n : length s ≡ length (s ++ 0 ∷ []) - 1 = omega (arith, length-append s (0 ∷ [])) in
    rw (append-zero s rest, ← n, read_exact-append io (length s) s (0 ∷ rest) refl, h) refl
read_value-put order le (integer v) rest h =
    rw (append-put_le 4 (as_u32 v) rest, read_le-put_le io order le 4 (as_u32 v) rest h.0, h.1) refl
