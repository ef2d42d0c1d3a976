-- ===== src/Formats/Psf/Written.antt =====
-- `Psf::parse` (crates/formats/src/psf.rs) on a whole file that was written: its keys and values are found again.
use anotherps4_emulator.Common.{
  ℕ, zero, suc, ◌+◌, ◌*◌, ◌^◌, ◌<◌, ◌≡◌, ◌≢◌, refl, sym, ap, ◌∙◌, List, [], ◌∷◌, ◌++◌, true, length,
  drop, All, arith,
}
use anotherps4_emulator.Common.Result.{ok}
use anotherps4_emulator.Common.Reader.{Bytes, ByteOrder, IsLittleEndian}
use anotherps4_emulator.Common.Reader.RoundTrip.{put_le, read_le-put_le, drop-put_le, drop-bytes}
use anotherps4_emulator.Common.Text.{Str}
use anotherps4_emulator.Common.Utf8.{is_utf8}
use anotherps4_emulator.Formats.Psf.{
  PsfValue, RawIndexEntry, Entries, io, read_header, read_index, parse, parse_entry, parse_entries,
  insert, format_of, psf_magic, swap_bytes,
}
use anotherps4_emulator.Formats.Psf.RoundTrip.{
  put_index, FitsIndexEntry, read_index-put, read_key-put, read_value-put, IsValue, format,
  format_value, value_bytes,
}

drop-nil : (n : ℕ) → drop {A = ℕ} n [] ≡ []
drop-nil zero = refl
drop-nil (suc n) = refl

drop-drop : (k m n : ℕ) (xs : Bytes) → k ≡ m + n → drop k xs ≡ drop n (drop m xs)
drop-drop k zero n xs e = let e' : k ≡ n = omega arith in rw (e') refl
drop-drop zero (suc m) n xs e = absurd (omega arith)
drop-drop (suc k) (suc m) n [] e = sym (drop-nil n)
drop-drop (suc k) (suc m) n (x ∷ xs) e = drop-drop k m n xs (omega arith)

drop-key :
    (key rest : Bytes) (k m : ℕ) → k ≡ length key + 1 + m → drop k (key ++ 0 ∷ rest) ≡ drop m rest
drop-key [] rest k m e = let e' : k ≡ suc m = omega arith in rw (e') refl
drop-key (b ∷ key) rest zero m e = absurd (omega arith)
drop-key (b ∷ key) rest (suc k) m e = drop-key key rest k m (omega arith)

-- The index of entries whose keys and values stand one behind the other.
unfoldable pub index_of : Entries → ℕ → ℕ → List RawIndexEntry
index_of [] key_offset data_offset = []
index_of ((key, value) ∷ entries) key_offset data_offset =
    let size = length (value_bytes value) in
    record {
      key_offset = key_offset;
      param_fmt = format_value value;
      param_len = size;
      param_max_len = size;
      data_offset = data_offset;
    }
    ∷ index_of entries (key_offset + (length key + 1)) (data_offset + size)

unfoldable pub put_keys : Entries → Bytes → Bytes
put_keys [] rest = rest
put_keys ((key, value) ∷ entries) rest = key ++ 0 ∷ put_keys entries rest

unfoldable pub put_values : Entries → Bytes → Bytes
put_values [] rest = rest
put_values ((key, value) ∷ entries) rest = value_bytes value ++ put_values entries rest

unfoldable pub insert_all : Entries → Entries → Entries
insert_all [] into = into
insert_all ((key, value) ∷ entries) into = insert_all entries (insert key value into)

-- A key in UTF-8 without a byte 0, and a value that fits its format.
abbrev pub IsEntry : Str × PsfValue → Type 0
IsEntry (key, value) = All (λ (b : ℕ). b ≢ 0) key × (is_utf8 key ≡ true) × IsValue value

format_of-format_value : (value : PsfValue) → format_of (format_value value) ≡ ok (format value)
format_of-format_value (PsfValue.binary b) = refl
format_of-format_value (PsfValue.text s) = refl
format_of-format_value (PsfValue.integer v) = refl

module _ (order : ByteOrder) (le : IsLittleEndian order) (data_bytes : Bytes) (kt dt : ℕ) where
  parse_entries-put :
      (entries into : Entries) (ko vo : ℕ) (rest rest' : Bytes)
      → All IsEntry entries
      → drop (kt + ko) data_bytes ≡ put_keys entries rest
      → drop (dt + vo) data_bytes ≡ put_values entries rest'
      → parse_entries order data_bytes kt dt (index_of entries ko vo) into
        ≡ ok (insert_all entries into)
  unfolding parse_entries parse_entry index_of put_keys put_values insert_all
  parse_entries-put [] into ko vo rest rest' h k v = refl
  parse_entries-put ((key, value) ∷ entries) into ko vo rest rest' h k v =
      let size : ℕ = length (value_bytes value) in
      let key_read = read_key-put key (put_keys entries rest) h.0.0 in
      let value_read = read_value-put order le value (put_values entries rest') h.0.2 in
      let k' : drop (kt + (ko + (length key + 1))) data_bytes ≡ put_keys entries rest =
        drop-drop _ (kt + ko) (length key + 1) data_bytes (omega arith)
        ∙ ap (drop (length key + 1)) k
        ∙ drop-key key (put_keys entries rest) (length key + 1) 0 (omega arith) in
      let v' : drop (dt + (vo + size)) data_bytes ≡ put_values entries rest' =
        drop-drop _ (dt + vo) size data_bytes (omega arith)
        ∙ ap (drop size) v
        ∙ drop-bytes size 0 (value_bytes value) (put_values entries rest') (omega arith) in
      let ih =
        parse_entries-put entries (insert key value into) (ko + (length key + 1)) (vo + size) rest
          rest' h.1 k' v' in
      rw (k, key_read, h.0.1, format_of-format_value value, v, value_read) ih

-- The bytes of the keys.
unfoldable pub keys_size : Entries → ℕ
keys_size [] = 0
keys_size ((key, value) ∷ entries) = length key + 1 + keys_size entries

abbrev pub key_table : Entries → ℕ
key_table entries = 20 + 16 * length entries

abbrev pub data_table : Entries → ℕ
data_table entries = key_table entries + keys_size entries

abbrev put_tables : Entries → Bytes → Bytes
put_tables entries rest =
    put_index (index_of entries 0 0) (put_keys entries (put_values entries rest))

-- A whole file: the magic number is its four characters in order.
unfoldable pub put_psf : ℕ → Entries → Bytes → Bytes
put_psf version entries rest = put_le 4 (swap_bytes psf_magic) (
    put_le 4 version (
      put_le 4 (key_table entries)
        (put_le 4 (data_table entries) (put_le 4 (length entries) (put_tables entries rest)))))

drop-put_header :
    (version : ℕ) (entries : Entries) (rest : Bytes) (k m : ℕ)
    → k ≡ 20 + m
    → drop k (put_psf version entries rest) ≡ drop m (put_tables entries rest)
unfolding put_psf
drop-put_header version entries rest k m e =
    drop-put_le k 4 (16 + m) _ _ (omega arith)
    ∙ drop-put_le (16 + m) 4 (12 + m) version _ (omega arith)
    ∙ drop-put_le (12 + m) 4 (8 + m) _ _ (omega arith)
    ∙ drop-put_le (8 + m) 4 (4 + m) _ _ (omega arith)
    ∙ drop-put_le (4 + m) 4 m _ _ (omega arith)

drop-put_index :
    (raws : List RawIndexEntry) (rest : Bytes) (k m : ℕ)
    → k ≡ 16 * length raws + m
    → drop k (put_index raws rest) ≡ drop m rest
unfolding put_index
drop-put_index [] rest k m e = let e' : k ≡ m = omega arith in rw (e') refl
drop-put_index (raw ∷ raws) rest k m e =
    let n : ℕ = 16 * length raws + m in
    drop-put_le k 2 (14 + n) raw.key_offset _ (omega arith)
    ∙ drop-put_le (14 + n) 2 (12 + n) raw.param_fmt _ (omega arith)
    ∙ drop-put_le (12 + n) 4 (8 + n) raw.param_len _ (omega arith)
    ∙ drop-put_le (8 + n) 4 (4 + n) raw.param_max_len _ (omega arith)
    ∙ drop-put_le (4 + n) 4 n raw.data_offset _ (omega arith)
    ∙ drop-put_index raws rest n m refl

drop-put_keys :
    (entries : Entries) (rest : Bytes) (k m : ℕ)
    → k ≡ keys_size entries + m
    → drop k (put_keys entries rest) ≡ drop m rest
unfolding put_keys keys_size
drop-put_keys [] rest k m e = let e' : k ≡ m = omega arith in rw (e') refl
drop-put_keys ((key, value) ∷ entries) rest k m e =
    drop-key key (put_keys entries rest) k (keys_size entries + m) (omega arith)
    ∙ drop-put_keys entries rest (keys_size entries + m) m refl

length-index_of : (entries : Entries) (ko vo : ℕ) → length (index_of entries ko vo) ≡ length entries
unfolding index_of
length-index_of [] ko vo = refl
length-index_of ((key, value) ∷ entries) ko vo = rw (length-index_of entries _ _) refl

-- A whole file reads back as its version and its entries, inserted in order.
pub parse-put_psf :
    (order : ByteOrder) (version : ℕ) (entries : Entries) (rest : Bytes)
    → IsLittleEndian order
    → version < 256 ^ 4
    → data_table entries < 256 ^ 4
    → All IsEntry entries
    → All FitsIndexEntry (index_of entries 0 0)
    → parse order (put_psf version entries rest)
      ≡ ok (record { version = version; entries = insert_all entries [] })
unfolding parse read_header put_psf
parse-put_psf order version entries rest le small fits es fs =
    let file : Bytes = put_psf version entries rest in
    let get = read_le-put_le io order le in
    let n = length-index_of entries 0 0 in
    let keys : drop (key_table entries + 0) file ≡ put_keys entries (put_values entries rest) =
      drop-put_header version entries rest _ (16 * length entries) (omega arith)
      ∙ drop-put_index (index_of entries 0 0) (put_keys entries (put_values entries rest)) _ 0
          (omega (arith, n)) in
    let values : drop (data_table entries + 0) file ≡ put_values entries rest =
      drop-put_header version entries rest _ (16 * length entries + keys_size entries) (omega arith)
      ∙ drop-put_index (index_of entries 0 0) (put_keys entries (put_values entries rest)) _
          (keys_size entries) (omega (arith, n))
      ∙ drop-put_keys entries (put_values entries rest) (keys_size entries) 0 (omega arith) in
    let parsed =
      parse_entries-put order le file (key_table entries) (data_table entries) entries [] 0 0
        (put_values entries rest) rest es keys values in
    let index : read_index order (length entries) (put_tables entries rest)
        ≡ ok (index_of entries 0 0, put_keys entries (put_values entries rest)) =
      rw (← n) (
        read_index-put order le (index_of entries 0 0) (put_keys entries (put_values entries rest))
          fs) in
    rw
      (
        parse,
        read_header,
        put_psf,
        get 4 (swap_bytes psf_magic) _ (omega arith),
        get 4 version _ small,
        get 4 (key_table entries) _ (omega (arith, fits)),
        get 4 (data_table entries) _ fits,
        get 4 (length entries) _ (omega (arith, fits)),
        index,
        parsed,
      )
      refl
