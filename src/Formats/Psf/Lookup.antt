-- ===== src/Formats/Psf/Lookup.antt =====
-- What is found in a PARAM.SFO file that was written (crates/formats/src/psf.rs).
use anotherps4_emulator.Common.{
  ℕ, ◌^◌, ◌<◌, ◌≡◌, refl, ◌∙◌, [], ◌∷◌, ◌++◌, some, false, All, arith, if◌then◌else◌,
}
use anotherps4_emulator.Common.Result.{ok}
use anotherps4_emulator.Common.Reader.{Bytes, ByteOrder, IsLittleEndian}
use anotherps4_emulator.Common.Text.{Str, str_eq, str_eq_lem, str_eq_refl}
use anotherps4_emulator.Formats.Psf.{Psf, PsfValue, Entries, parse, insert, get}
use anotherps4_emulator.Formats.Psf.RoundTrip.{FitsIndexEntry}
use anotherps4_emulator.Formats.Psf.Written.{
  IsEntry, index_of, put_psf, insert_all, data_table, parse-put_psf,
}

get-insert :
    (entries : Entries) (key other : Str) (value : PsfValue)
    → get (insert key value entries) other
      ≡ (if str_eq key other then some value else get entries other)
get-insert [] key other value = refl
get-insert ((k, v) ∷ entries) key other value =
    let ih = get-insert entries key other value in
    ground (arith, str_eq_lem k key, str_eq_lem k other, str_eq_lem key other, str_eq_refl other)

-- No entry has the key.
abbrev pub Without : Str → Entries → Type 0
Without key entries = All (λ (e : Str × PsfValue). str_eq e.0 key ≡ false) entries

get-insert_all :
    (entries into : Entries) (key : Str)
    → Without key entries
    → get (insert_all entries into) key ≡ get into key
unfolding insert_all
get-insert_all [] into key h = refl
get-insert_all ((k, v) ∷ entries) into key h =
    get-insert_all entries (insert k v into) key h.1 ∙ get-insert into k key v ∙ (rw (h.0) refl)

-- The last entry of a key is the one that is found.
get-insert_all-last :
    (before after into : Entries) (key : Str) (value : PsfValue)
    → Without key after
    → get (insert_all (before ++ (key, value) ∷ after) into) key ≡ some value
unfolding insert_all
get-insert_all-last [] after into key value h =
    get-insert_all after (insert key value into) key h
    ∙ get-insert into key key value
    ∙ (rw (str_eq_refl key) refl)
get-insert_all-last ((k, v) ∷ before) after into key value h =
    get-insert_all-last before after (insert k v into) key value h

-- Where the reads are little-endian: a PARAM.SFO file written from entries with keys in UTF-8 without
-- a zero byte, texts in UTF-8, integers of 32 bits and offsets that fit their fields is parsed, and
-- under each key stands the value of its last entry.
pub parse-get :
    (order : ByteOrder) (version : ℕ) (entries before after : Entries) (key : Str)
    (value : PsfValue) (rest : Bytes)
    → IsLittleEndian order
    → version < 256 ^ 4
    → data_table entries < 256 ^ 4
    → All IsEntry entries
    → All FitsIndexEntry (index_of entries 0 0)
    → entries ≡ before ++ (key, value) ∷ after
    → Without key after
    → (psf : Psf) × (parse order (put_psf version entries rest) ≡ ok psf)
      × (get psf.entries key ≡ some value)
parse-get order version entries before after key value rest le small fits es fs split h = (
  record { version = version; entries = insert_all entries [] },
  parse-put_psf order version entries rest le small fits es fs,
  rw (split) (get-insert_all-last before after [] key value h),
)
