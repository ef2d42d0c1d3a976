-- ===== src/Common/Utf8.antt =====
-- The standard library's UTF-8: `String::from_utf8` succeeds where `is_utf8` holds, and `from_utf8_lossy` puts
-- U+FFFD for each maximal part of the bytes that begins no character.
use anotherps4_emulator.Common.{
  ℕ, zero, suc, ◌+◌, ◌≡◌, refl, [], ◌∷◌, ◌++◌, Bool, true, false, ◌&&◌, ltb, leb, ◌==◌, length,
  take, drop, take-append-drop, arith, if◌then◌else◌,
}
use anotherps4_emulator.Common.Reader.{Bytes}

abbrev between : ℕ → ℕ → ℕ → Bool
between low high b = leb low b && leb b high

-- Whether the bytes from the third on of a character go on for `left` bytes; `seen` of it were right.
abbrev tail : ℕ → ℕ → Bytes → Bool × ℕ
tail zero seen bytes = (true, seen)
tail (suc left) seen [] = (false, seen)
tail (suc left) seen (b ∷ bytes) =
    let later = tail left (seen + 1) bytes in if between 0x80 0xbf b then later else (false, seen)

abbrev second : ℕ → ℕ → ℕ → Bytes → Bool × ℕ
second low high left [] = (false, 1)
second low high left (b ∷ bytes) =
    let later = tail left 2 bytes in if between low high b then later else (false, 1)

-- Whether the bytes start with a character, and how many bytes it or the faulty part has.
unfoldable pub chunk : Bytes → Bool × ℕ
chunk [] = (true, 0)
chunk (b ∷ bytes) =
    if ltb b 0x80
    then (true, 1)
    else if between 0xc2 0xdf b
    then second 0x80 0xbf 0 bytes
    else if b == 0xe0
    then second 0xa0 0xbf 1 bytes
    else if b == 0xed
    then second 0x80 0x9f 1 bytes
    else if between 0xe1 0xef b
    then second 0x80 0xbf 1 bytes
    else if b == 0xf0
    then second 0x90 0xbf 2 bytes
    else if between 0xf1 0xf3 b
    then second 0x80 0xbf 2 bytes
    else if b == 0xf4
    then second 0x80 0x8f 2 bytes
    else (false, 1)

-- Both walk over at most `rounds` parts; the length of the bytes is enough.
unfoldable pub valid_from : ℕ → Bytes → Bool
valid_from zero bytes = length bytes == 0
valid_from (suc rounds) bytes =
    let (valid, n) = chunk bytes in let later = valid_from rounds (drop n bytes) in valid && later

unfoldable pub lossy_from : ℕ → Bytes → Bytes
lossy_from zero bytes = []
lossy_from (suc rounds) bytes =
    let (valid, n) = chunk bytes in
    let later = lossy_from rounds (drop n bytes) in
    if valid then take n bytes ++ later else 0xef ∷ 0xbf ∷ 0xbd ∷ later

abbrev pub is_utf8 : Bytes → Bool
is_utf8 bytes = valid_from (length bytes) bytes

abbrev pub from_utf8_lossy : Bytes → Bytes
from_utf8_lossy bytes = lossy_from (length bytes) bytes

lossy_from_valid :
    (rounds : ℕ) (bytes : Bytes) → valid_from rounds bytes ≡ true → lossy_from rounds bytes ≡ bytes
unfolding valid_from lossy_from
lossy_from_valid zero [] h = refl
lossy_from_valid zero (b ∷ bytes) h = absurd (ground arith)
lossy_from_valid (suc rounds) bytes h =
    let (valid, n) = chunk bytes in
    let v : valid ≡ true = ground arith in
    let ih = lossy_from_valid rounds (drop n bytes) (ground arith) in
    rw (v, ih) (take-append-drop n bytes)

-- Valid UTF-8 is left as it is.
pub from_utf8_lossy-is_utf8 : (bytes : Bytes) → is_utf8 bytes ≡ true → from_utf8_lossy bytes ≡ bytes
from_utf8_lossy-is_utf8 bytes h = lossy_from_valid (length bytes) bytes h
