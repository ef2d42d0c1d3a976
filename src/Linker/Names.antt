-- ===== src/Linker/Names.antt =====
-- The names of the loaded modules, where they stand in the list, and lists that grow at their end.
use anotherps4_emulator.Common.{
  ℕ, suc, ◌<◌, ◌≡◌, refl, sym, ◌∙◌, inl, inr, List, [], ◌∷◌, ◌++◌, none, some, false, length,
  get_elem?, arith, Bool-cases, Option-cases,
}
use anotherps4_emulator.Loader.Symbols.{Str, str_eq}
use anotherps4_emulator.Common.Text.{str_eq_lem, str_eq_refl}
use anotherps4_emulator.Linker.Module.{Module}
use anotherps4_emulator.Linker.Modules.{Linker, position}
use mathlib.Core.List.{append_assoc, append-nil}

-- No two modules have the same name.
abbrev pub Distinct : List Module → Type 0
Distinct [] = Unit
Distinct (m ∷ modules) = (position modules m.name ≡ none) × Distinct modules

pub position-append :
    (modules more : List Module) (name : Str)
    → position modules name ≡ none
    → position more name ≡ none
    → position (modules ++ more) name ≡ none
unfolding position
position-append [] more name h h' = h'
position-append (m ∷ modules) more name h h' = ground (arith, position-append modules more name)

pub Distinct-append :
    (modules : List Module) (m : Module)
    → Distinct modules
    → position modules m.name ≡ none
    → Distinct (modules ++ m ∷ [])
unfolding position
Distinct-append [] m d h = (refl, tt)
Distinct-append (x ∷ modules) m d h =
    let other : str_eq m.name x.name ≡ false =
      ground (arith, str_eq_lem m.name x.name, str_eq_refl m.name) in
    let later : position modules m.name ≡ none = ground arith in
    (
      position-append modules (m ∷ []) x.name d.0 (rw (other) refl),
      Distinct-append modules m d.1 later,
    )

-- Modules were added behind those that were there, and their names stay distinct.
abbrev pub Extends : Linker → Linker → Type 0
Extends self self' =
    ((more : List Module) × (self'.modules ≡ self.modules ++ more))
    × (Distinct self.modules → Distinct self'.modules)

pub Extends-refl : (self : Linker) → Extends self self
Extends-refl self = ((([], sym (append-nil self.modules)), λ d. d))

pub Extends-trans : (a b c : Linker) → Extends a b → Extends b c → Extends a c
Extends-trans a b c ((more, e), d) ((more', e'), d') =
    ((more ++ more', e' ∙ (rw (e) (append_assoc a.modules more more'))), λ x. d' (d x))

-- The module that `position` finds.
pub position-get_elem? :
    (modules : List Module) (name : Str) (i : ℕ)
    → position modules name ≡ some i
    → (m : Module) × (get_elem? modules i ≡ some m) × (m.name ≡ name) × (i < length modules)
unfolding position
position-get_elem? [] name i e = absurd (ground arith)
position-get_elem? (m ∷ modules) name i e = elim (Bool-cases (str_eq m.name name)) [
  | inl same ↦
      let zeroth : i ≡ 0 = ground arith in
      (m, rw (zeroth) refl, str_eq_lem m.name name same, rw (zeroth) (omega arith))
  | inr other ↦ elim (Option-cases (position modules name)) [
    | inl none_left ↦ absurd (ground arith)
    | inr (j, there) ↦
        let later : i ≡ suc j = ground arith in
        let (x, at, named, bound) = position-get_elem? modules name j there in
        (x, rw (later) at, named, omega (arith, bound, later))
  ]
]

pub get_elem?-append :
    (modules more : List Module) (m : Module)
    → get_elem? ((modules ++ m ∷ []) ++ more) (length modules) ≡ some m
get_elem?-append [] more m = refl
get_elem?-append (x ∷ modules) more m = get_elem?-append modules more m
