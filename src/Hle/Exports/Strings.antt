-- ===== src/Hle/Exports/Strings.antt =====
-- The strings that `strcpy` and `strcat` of crates/core/src/hle/exports.rs leave in memory.
use anotherps4_emulator.Common.{
  ℕ, zero, suc, ◌+◌, ◌≤◌, ◌<◌, ◌≡◌, ◌≢◌, refl, sym, ◌∙◌, ◌⊎◌, inl, List, [], ◌∷◌, ◌++◌, some, false,
  ◌||◌, ◌==◌, length, arith,
}
use mathlib.Core.Path.{subst}
use anotherps4_emulator.Hle.Bytes.{Bytes, write}
use anotherps4_emulator.Hle.Bytes.Words.{Outside}
use anotherps4_emulator.Hle.Exports.{copy_string, find_end, strcat, string_limit}

-- A string and its terminating 0.
abbrev pub StringAt : Bytes → ℕ → List ℕ → Type 0
StringAt bytes at [] = bytes at ≡ 0
StringAt bytes at (c ∷ s) = (bytes at ≡ c) × (c ≢ 0) × StringAt bytes (at + 1) s

-- The bytes of a string of a length, with the 0.
abbrev pub Apart : ℕ → ℕ → ℕ → ℕ → Type 0
Apart a m b n = (a + m < b) ⊎ (b + n < a)

StringAt-cong :
    (s : List ℕ) (bytes bytes' : Bytes) (at : ℕ)
    → ((x : ℕ) → at ≤ x → x ≤ at + length s → bytes' x ≡ bytes x)
    → StringAt bytes at s
    → StringAt bytes' at s
StringAt-cong [] bytes bytes' at same h = same at (omega arith) (omega arith) ∙ h
StringAt-cong (c ∷ s) bytes bytes' at same h = (
  same at (omega arith) (omega arith) ∙ h.0,
  h.1,
  StringAt-cong s bytes bytes' (at + 1) (λ x l u. same x (omega arith) (omega arith)) h.2,
)

copy_string-stop :
    (left dst src : ℕ) (bytes : Bytes)
    → bytes src ≡ 0
    → copy_string (suc left) dst src bytes ≡ write bytes dst (bytes src)
unfolding copy_string
copy_string-stop left dst src bytes h = rw (h) refl

copy_string-go :
    (left dst src : ℕ) (bytes : Bytes)
    → bytes src ≢ 0
    → copy_string (suc left) dst src bytes
      ≡ copy_string left (dst + 1) (src + 1) (write bytes dst (bytes src))
unfolding copy_string
copy_string-go left dst src bytes h =
    let go : (bytes src == 0) ≡ false = ground (arith, h) in rw (copy_string, go) refl

copy_string_lem :
    (s : List ℕ) (left dst src : ℕ) (bytes : Bytes)
    → length s < left
    → Apart dst (length s) src (length s)
    → StringAt bytes src s
    → StringAt (copy_string left dst src bytes) dst s
      × ((x : ℕ) → Outside x dst (length s + 1) → copy_string left dst src bytes x ≡ bytes x)
copy_string_lem s zero dst src bytes l apart h = absurd (omega arith)
copy_string_lem [] (suc left) dst src bytes l apart h =
    rw (copy_string-stop left dst src bytes h) (ground arith, λ x o. ground arith)
copy_string_lem (c ∷ s) (suc left) dst src bytes l apart h =
    let more : bytes src ≢ 0 = ground (arith, h.0, h.1) in
    let bytes' : Bytes = write bytes dst (bytes src) in
    let tail : StringAt bytes' (src + 1) s =
      StringAt-cong s bytes bytes' (src + 1) (λ x lo hi. ground (arith, apart)) h.2 in
    let ih =
      copy_string_lem s left (dst + 1) (src + 1) bytes' (omega arith) (ground (arith, apart))
        tail in
    let first : copy_string left (dst + 1) (src + 1) bytes' dst ≡ c =
      ih.1 dst (inl (omega arith)) ∙ ground (arith, h.0) in
    subst
      (λ (b : Bytes).
        StringAt b dst (c ∷ s) × ((x : ℕ) → Outside x dst (length (c ∷ s) + 1) → b x ≡ bytes x))
      (sym (copy_string-go left dst src bytes more))
      ((first, h.1, ih.0), λ x o. ih.1 x (ground arith) ∙ ground arith)

find_end_lem :
    (s : List ℕ) (left at : ℕ) (bytes : Bytes)
    → length s < left
    → StringAt bytes at s
    → find_end left at bytes ≡ some (at + length s)
unfolding find_end
find_end_lem s zero at bytes l h = absurd (omega arith)
find_end_lem [] (suc left) at bytes l h = let e : at + 0 ≡ at = omega arith in rw (e) (ground arith)
find_end_lem (c ∷ s) (suc left) at bytes l h =
    let go : (bytes at == 0) ≡ false = ground (arith, h.0, h.1) in
    let ih = find_end_lem s left (at + 1) bytes (omega arith) h.2 in
    let e : at + 1 + length s ≡ at + suc (length s) = omega arith in rw (find_end, go, ← e) ih

StringAt-append :
    (a b : List ℕ) (bytes bytes' : Bytes) (at : ℕ)
    → StringAt bytes at a
    → ((x : ℕ) → at ≤ x → x < at + length a → bytes' x ≡ bytes x)
    → StringAt bytes' (at + length a) b
    → StringAt bytes' at (a ++ b)
StringAt-append [] b bytes bytes' at h same h' = let e : at + 0 ≡ at = omega arith in rw (e) at h'
StringAt-append (c ∷ a) b bytes bytes' at h same h' =
    let e : at + suc (length a) ≡ at + 1 + length a = omega arith in
    (
      same at (omega arith) (omega arith) ∙ h.0,
      h.1,
      StringAt-append a b bytes bytes' (at + 1) h.2 (λ x l u. same x (omega arith) (omega arith))
          (rw (e) at h'),
    )

-- On strings of at most 0x100000 bytes, where the source lies apart from the two strings behind each
-- other: strcat leaves the one string behind the other at its first argument, which it answers, and
-- changes no byte outside of the copy and its terminating zero.
pub strcat_lem :
    (rdi rsi : ℕ) (bytes : Bytes) (a b : List ℕ)
    → rdi ≢ 0
    → rsi ≢ 0
    → StringAt bytes rdi a
    → StringAt bytes rsi b
    → length a ≤ 0x10_0000
    → length b ≤ 0x10_0000
    → Apart rdi (length a + length b) rsi (length b)
    → ((strcat rdi rsi bytes).0 ≡ rdi)
      × StringAt (strcat rdi rsi bytes).1 rdi (a ++ b)
      × ((x : ℕ) → Outside x (rdi + length a) (length b + 1) → (strcat rdi rsi bytes).1 x ≡ bytes x)
unfolding strcat
strcat_lem rdi rsi bytes a b n n' ha hb la lb apart =
    let given : (rdi == 0 || rsi == 0) ≡ false = ground (arith, n, n') in
    let end = find_end_lem a string_limit rdi bytes (omega arith) ha in
    let copied =
      copy_string_lem b string_limit (rdi + length a) rsi bytes (omega arith)
        (ground (arith, apart)) hb in
    let joined =
      StringAt-append a b bytes (copy_string string_limit (rdi + length a) rsi bytes) rdi ha
        (λ x l u. copied.1 x (inl (omega arith))) copied.0 in
    rw (given, end) (refl, joined, copied.1)
