-- ===== src/Formats/Psf/Tests.antt =====
-- Runs and witnesses for the parser of PARAM.SFO files.
use anotherps4_emulator.Common.{◌≡◌, refl, [], ◌∷◌, some, All, arith}
use anotherps4_emulator.Common.Int.{negsuc}
use anotherps4_emulator.Common.Result.{ok, err}
use anotherps4_emulator.Common.Reader.{ByteOrder, IsLittleEndian, little_endian, read_le}
use anotherps4_emulator.Common.Reader.RoundTrip.{put_le}
use anotherps4_emulator.Common.Text.{codes}
use anotherps4_emulator.Common.Utf8.{valid_from, chunk}
use anotherps4_emulator.Formats.Psf.{Psf, PsfValue, PsfError, Entries, parse, get, read_header}
use anotherps4_emulator.Formats.Psf.RoundTrip.{FitsIndexEntry}
use anotherps4_emulator.Formats.Psf.Written.{IsEntry, index_of, keys_size, put_psf}
use anotherps4_emulator.Formats.Psf.Lookup.{parse-get}

abbrev order : ByteOrder
order = record { read = little_endian }

order-IsLittleEndian : IsLittleEndian order
order-IsLittleEndian = record { reads = λ n bytes. refl }

abbrev entries : Entries
entries =
    (codes "ATTRIBUTE", PsfValue.integer (negsuc 0))
    ∷ (codes "TITLE", PsfValue.text (codes "Old"))
    ∷ (codes "TITLE", PsfValue.text (codes "New"))
    ∷ (codes "PUBTOOL", PsfValue.binary (0 ∷ 255 ∷ []))
    ∷ []

entries-Are : All IsEntry entries
unfolding valid_from chunk
entries-Are = (
  (ground arith, refl, (omega arith, refl)),
  ((ground arith, refl, refl), ((ground arith, refl, refl), ((ground arith, refl, tt), tt))),
)

index-Fits : All FitsIndexEntry (index_of entries 0 0)
unfolding index_of put_le
index-Fits = (
  record {
    key_offset = omega arith;
    param_fmt = omega arith;
    param_len = omega arith;
    param_max_len = omega arith;
    data_offset = omega arith;
  },
  (
    record {
      key_offset = omega arith;
      param_fmt = omega arith;
      param_len = omega arith;
      param_max_len = omega arith;
      data_offset = omega arith;
    },
    (
      record {
        key_offset = omega arith;
        param_fmt = omega arith;
        param_len = omega arith;
        param_max_len = omega arith;
        data_offset = omega arith;
      },
      (
        record {
          key_offset = omega arith;
          param_fmt = omega arith;
          param_len = omega arith;
          param_max_len = omega arith;
          data_offset = omega arith;
        },
        tt,
      ),
    ),
  ),
)

small : keys_size entries ≡ 30
unfolding keys_size
small = refl

parse-get_example :
    (psf : Psf) × (parse order (put_psf 0x101 entries []) ≡ ok psf)
    × (get psf.entries (codes "TITLE") ≡ some (PsfValue.text (codes "New")))
parse-get_example =
    parse-get order 0x101 entries
      ((codes "ATTRIBUTE", PsfValue.integer (negsuc 0))
        ∷ (codes "TITLE", PsfValue.text (codes "Old"))
        ∷ [])
      ((codes "PUBTOOL", PsfValue.binary (0 ∷ 255 ∷ [])) ∷ []) (codes "TITLE")
      (PsfValue.text (codes "New")) [] order-IsLittleEndian (omega arith) (omega (arith, small))
      entries-Are index-Fits refl (refl, tt)

-- Another magic number is refused, and a key that runs to the end of the file.
parse_refuses :
    (parse order (put_le 4 0x464c_457f []) ≡ err (PsfError.invalid_magic 0x464c_457f))
    × (parse order (put_le 4 0x4653_5000 []) ≡ err PsfError.io)
unfolding parse read_header read_le put_le
parse_refuses = (refl, refl)
