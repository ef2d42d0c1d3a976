-- ===== src/Loader/Symbols/Lookup.antt =====
-- What lookups find after symbols have been added and registries merged (crates/core/src/loader/symbols.rs).
use anotherps4_emulator.Common.{
  ◌≡◌, refl, ap, ◌∙◌, [], ◌∷◌, Option, none, some, if◌then◌else◌, arith, Bool-cases, inl, inr,
}
use anotherps4_emulator.Common.Text.{str_eq_lem, str_eq_refl}
use anotherps4_emulator.Loader.Symbols.{
  Str, str_eq, SymbolRecord, SymbolResolver, Entries, get, insert, insert_all, add_symbol,
  find_symbol, resolve, merge,
}

get-insert :
    (m : Entries) (nid other : Str) (r : SymbolRecord)
    → get (insert m nid r) other ≡ (if str_eq nid other then some r else get m other)
get-insert [] nid other r = refl
get-insert ((k, s) ∷ m) nid other r =
    let ih = get-insert m nid other r in
    ground (arith, str_eq_lem k nid, str_eq_lem k other, str_eq_lem nid other, str_eq_refl other)

-- The last record that a list gives to a key, or else the one from before.
abbrev pub last_of : Entries → Str → Option SymbolRecord → Option SymbolRecord
last_of [] nid before = before
last_of ((k, r) ∷ rest) nid before = last_of rest nid (if str_eq k nid then some r else before)

get-insert_all : (m l : Entries) (nid : Str) → get (insert_all m l) nid ≡ last_of l nid (get m nid)
get-insert_all m [] nid = refl
get-insert_all m ((k, r) ∷ l) nid =
    get-insert_all (insert m k r) l nid ∙ ap (last_of l nid) (get-insert m k nid r)

-- After `add_symbol` the key leads to the new record, every other key leads where it led, and `resolve` finds
-- the new address under the key, whatever the names of the records are.
pub add_symbol_lem :
    (self : SymbolResolver) (walk : Entries → Entries) (nid other : Str) (r : SymbolRecord)
    → (find_symbol (add_symbol self nid r) other
        ≡ (if str_eq nid other then some r else find_symbol self other))
      × (resolve walk (add_symbol self nid r) nid ≡ some r.virtual_address)
unfolding find_symbol add_symbol resolve
add_symbol_lem self walk nid other r = (
  get-insert self.symbols nid other r,
  rw (get-insert self.symbols nid nid r, str_eq_refl nid, resolve) refl,
)

-- No key stands twice.
abbrev pub IsKeyed : Entries → Type 0
IsKeyed [] = Unit
IsKeyed ((k, r) ∷ rest) = (get rest k ≡ none) × IsKeyed rest

-- What walking over a hash map yields: each of its entries once, in some order.
pub record Walks (m l : Entries) : Type 0 where
  pub keyed : IsKeyed l
  pub same : (nid : Str) → get l nid ≡ get m nid

abbrev pub or_else : Option SymbolRecord → Option SymbolRecord → Option SymbolRecord
or_else none before = before
or_else (some r) before = some r

last_of-keyed :
    (l : Entries) (nid : Str) (before : Option SymbolRecord)
    → IsKeyed l
    → last_of l nid before ≡ or_else (get l nid) before
last_of-keyed [] nid before h = refl
last_of-keyed ((k, r) ∷ l) nid before h = elim (Bool-cases (str_eq k nid)) [
  | inl same ↦
      let gone : get l nid ≡ none = rw (← str_eq_lem k nid same) h.0 in
      rw same (last_of-keyed l nid (some r) h.1 ∙ rw gone refl)
  | inr other ↦ rw other (last_of-keyed l nid before h.1)
]

-- Where walking over the other registry yields each of its entries once: after merge a key leads to
-- the record of the other registry, and where that has none to what it led to before, whatever the
-- order of the walk.
pub merge_lem :
    (self other : SymbolResolver) (walk : Entries → Entries) (nid : Str)
    → Walks other.symbols (walk other.symbols)
    → find_symbol (merge walk self other) nid
      ≡ or_else (find_symbol other nid) (find_symbol self nid)
unfolding find_symbol merge
merge_lem self other walk nid w =
    get-insert_all self.symbols (walk other.symbols) nid
    ∙ last_of-keyed (walk other.symbols) nid (get self.symbols nid) w.keyed
    ∙ ap (λ found. or_else found (get self.symbols nid)) (w.same nid)
