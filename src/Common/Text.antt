-- ===== src/Common/Text.antt =====
-- Texts as their bytes, and their equality.
use Prim.Native.Nat.{ℕ}
use Prim.Native.String.{String}
use Prim.Native.Char.{code}
use mathlib.Core.Path.{◌≡◌, refl}
use mathlib.Core.Bool.{Bool, true, false, ◌&&◌}
use mathlib.Core.List.{List, [], ◌∷◌}
use native.Mathlib.Omega.{arith}
use anotherps4_emulator.Common.Tests.{◌==◌}

abbrev pub Str : Type 0
Str = List ℕ

-- The bytes of a text of ASCII characters.
abbrev pub codes : String → Str
codes String.[] = []
codes (String.◌∷◌ c s) = code c ∷ codes s

abbrev pub str_eq : Str → Str → Bool
str_eq [] [] = true
str_eq [] (_ ∷ _) = false
str_eq (_ ∷ _) [] = false
str_eq (x ∷ xs) (y ∷ ys) = (x == y) && str_eq xs ys

pub str_eq_lem : (a b : Str) → str_eq a b ≡ true → a ≡ b
str_eq_lem [] [] h = refl
str_eq_lem [] (y ∷ ys) h = absurd (ground arith)
str_eq_lem (x ∷ xs) [] h = absurd (ground arith)
str_eq_lem (x ∷ xs) (y ∷ ys) h = ground (arith, str_eq_lem xs ys)

pub str_eq_refl : (a : Str) → str_eq a a ≡ true
str_eq_refl [] = refl
str_eq_refl (x ∷ xs) = ground (arith, str_eq_refl xs)
