-- ===== src/Formats/Psf.antt =====
-- crates/formats/src/psf.rs: the parser of PARAM.SFO files. The reads of byteorder are a parameter, a text is its bytes,
-- and the hash map is a list with one entry for each key.
pub mod RoundTrip
pub mod Written
pub mod Lookup
mod Tests
use anotherps4_emulator.Common.{
  ℕ, zero, suc, ◌+◌, ◌-◌, ◌*◌, ◌/◌, ◌%◌, ◌^◌, List, [], ◌∷◌, Option, none, some, Bool, true, false,
  ◌&&◌, ◌||◌, ◌==◌, ltb, drop, if◌then◌else◌,
}
use anotherps4_emulator.Common.Int.{ℤ, pos, negsuc}
use anotherps4_emulator.Common.Result.{Result, ok, err, bind}
use anotherps4_emulator.Common.Reader.{
  Bytes, Reader, ByteOrder, read_le, read_exact, ◌>>=◌, ◌>>◌, guard, pure, run,
}
use anotherps4_emulator.Common.Utf8.{is_utf8}
use anotherps4_emulator.Common.Text.{Str, str_eq, codes}

abbrev pub psf_magic : ℕ
psf_magic = 0x0050_5346

pub data PsfEntryFormat : Type 0 where
  binary_format text_format integer_format : PsfEntryFormat

abbrev pub from_u16 : ℕ → Option PsfEntryFormat
from_u16 value =
    if value == 0x0004
    then some binary_format
    else if value == 0x0204
    then some text_format
    else if value == 0x0404
    then some integer_format
    else none

pub data PsfValue : Type 0 where
  binary : Bytes → PsfValue
  text : Str → PsfValue
  integer : ℤ → PsfValue

abbrev pub as_str : PsfValue → Option Str
as_str (text s) = some s
as_str _ = none

abbrev pub as_integer : PsfValue → Option ℤ
as_integer (integer v) = some v
as_integer _ = none

abbrev pub as_binary : PsfValue → Option Bytes
as_binary (binary b) = some b
as_binary _ = none

abbrev pub Entries : Type 0
Entries = List (Str × PsfValue)

pub record Psf : Type 0 where
  pub version : ℕ
  pub entries : Entries

pub data PsfError : Type 0 where
  io invalid_utf8 : PsfError
  invalid_magic unknown_format : ℕ → PsfError

pub record RawIndexEntry : Type 0 where
  pub key_offset : ℕ
  pub param_fmt : ℕ
  pub param_len : ℕ
  pub param_max_len : ℕ
  pub data_offset : ℕ

-- What the header and the index hold.
pub record PsfHeader : Type 0 where
  pub version : ℕ
  pub key_table_offset : ℕ
  pub data_table_offset : ℕ
  pub index : List RawIndexEntry

-- `swap_bytes` on `u32`.
abbrev pub swap_bytes : ℕ → ℕ
swap_bytes v =
    v % 256 * 256 ^ 3 + v / 256 % 256 * 256 ^ 2 + v / 256 ^ 2 % 256 * 256 + v / 256 ^ 3 % 256

-- The 32-bit pattern as `i32`.
abbrev pub as_i32 : ℕ → ℤ
as_i32 v = if ltb v (2 ^ 31) then pos v else negsuc (2 ^ 32 - 1 - v)

-- `insert` and `get` of the hash map.
abbrev pub insert : Str → PsfValue → Entries → Entries
insert key value [] = (key, value) ∷ []
insert key value ((k, v) ∷ entries) =
    if str_eq k key then (k, value) ∷ entries else (k, v) ∷ insert key value entries

abbrev pub get : Entries → Str → Option PsfValue
get [] key = none
get ((k, v) ∷ entries) key = if str_eq k key then some v else get entries key

-- The loop over the bytes of a key.
unfoldable pub read_key : Reader PsfError Bytes
read_key [] = err io
read_key (b ∷ bytes) =
    let rest = read_key bytes in
    if b == 0 then ok ([], bytes) else bind rest λ (key, bytes'). ok (b ∷ key, bytes')

-- `String::from_utf8`
abbrev pub from_utf8 : Bytes → Result PsfError Str
from_utf8 bytes = if is_utf8 bytes then ok bytes else err invalid_utf8

abbrev pub first : {A : Type 0} → A × Bytes → Result PsfError A
first (a, rest) = ok a

abbrev pub format_of : ℕ → Result PsfError PsfEntryFormat
format_of param_fmt = elim (from_u16 param_fmt) [
  | none ↦ err (unknown_format param_fmt)
  | some fmt ↦ ok fmt
]

abbrev pub is_magic : ℕ → Bool
is_magic magic = magic == psf_magic || swap_bytes magic == psf_magic

module _ (order : ByteOrder) where
  abbrev u16 : Reader PsfError ℕ
  u16 = read_le order io 2

  abbrev u32 : Reader PsfError ℕ
  u32 = read_le order io 4

  unfoldable pub read_index_entry : Reader PsfError RawIndexEntry
  read_index_entry bytes = run bytes do
    key_offset ← u16
    param_fmt ← u16
    param_len ← u32
    param_max_len ← u32
    data_offset ← u32
    pure (record {
      key_offset = key_offset;
      param_fmt = param_fmt;
      param_len = param_len;
      param_max_len = param_max_len;
      data_offset = data_offset;
    })

  unfoldable pub read_index : ℕ → Reader PsfError (List RawIndexEntry)
  read_index zero bytes = ok ([], bytes)
  read_index (suc count) bytes =
      run bytes do raw ← read_index_entry; raws ← read_index count; pure (raw ∷ raws)

  -- The value of an entry, read at its place in the data table.
  unfoldable pub read_value : PsfEntryFormat → ℕ → Bytes → Result PsfError PsfValue
  read_value binary_format param_len bytes =
      bind (read_exact io param_len bytes) λ (buf, _). ok (binary buf)
  read_value text_format param_len bytes =
      bind (read_exact io (param_len - 1) bytes) λ (buf, _). bind (from_utf8 buf) λ s. ok (text s)
  read_value integer_format param_len bytes = bind (u32 bytes) λ (val, _). ok (integer (as_i32 val))

  -- One turn of the loop over the index: `Cursor::seek` does not fail behind the end.
  unfoldable pub parse_entry : Bytes → ℕ → ℕ → RawIndexEntry → Result PsfError (Str × PsfValue)
  parse_entry data_bytes key_table_offset data_table_offset raw =
      bind (read_key (drop (key_table_offset + raw.key_offset) data_bytes)) λ (key_bytes, _).
        bind (from_utf8 key_bytes) λ key. bind (format_of raw.param_fmt) λ fmt.
          bind
            (read_value fmt raw.param_len (drop (data_table_offset + raw.data_offset) data_bytes))
            λ value. ok (key, value)

  unfoldable pub parse_entries :
      Bytes → ℕ → ℕ → List RawIndexEntry → Entries → Result PsfError Entries
  parse_entries data_bytes key_table_offset data_table_offset [] entries = ok entries
  parse_entries data_bytes key_table_offset data_table_offset (raw ∷ raws) entries =
      bind (parse_entry data_bytes key_table_offset data_table_offset raw) λ (key, value).
        parse_entries data_bytes key_table_offset data_table_offset raws (insert key value entries)

  unfoldable pub read_header : Reader PsfError PsfHeader
  read_header bytes = run bytes do
    magic ← u32
    guard (is_magic magic) (invalid_magic magic)
    version ← u32
    key_table_offset ← u32
    data_table_offset ← u32
    index_entries ← u32
    index ← read_index index_entries
    pure (record {
      version = version;
      key_table_offset = key_table_offset;
      data_table_offset = data_table_offset;
      index = index;
    })

  -- `Psf::parse`
  unfoldable pub parse : Bytes → Result PsfError Psf
  parse data_bytes = bind (read_header data_bytes) λ (h, _).
      bind (parse_entries data_bytes h.key_table_offset h.data_table_offset h.index [])
        λ entries. ok (record { version = h.version; entries = entries })

unfoldable pub get_string : Psf → Str → Option Str
get_string self key = elim (get self.entries key) [ none ↦ none | some v ↦ as_str v ]

unfoldable pub get_integer : Psf → Str → Option ℤ
get_integer self key = elim (get self.entries key) [ none ↦ none | some v ↦ as_integer v ]

unfoldable pub title : Psf → Option Str
title self = get_string self (codes "TITLE")

unfoldable pub title_id : Psf → Option Str
title_id self = get_string self (codes "TITLE_ID")

unfoldable pub content_id : Psf → Option Str
content_id self = get_string self (codes "CONTENT_ID")

unfoldable pub app_version : Psf → Option Str
app_version self = get_string self (codes "APP_VER")

unfoldable pub category : Psf → Option Str
category self = get_string self (codes "CATEGORY")
