-- ===== src/Loader/Symbols.antt =====
-- crates/core/src/loader/symbols.rs: the registry of exported symbols. A name is its bytes. The hash map is an
-- association list with one entry for each key; the order in which it is walked is a parameter.
pub mod Lookup
mod Tests
pub use anotherps4_emulator.Common.Text.{Str, str_eq}
use anotherps4_emulator.Common.{
  ℕ, List, [], ◌∷◌, Option, none, some, Bool, true, false, ◌&&◌, ◌==◌, length, if◌then◌else◌,
}
use anotherps4_emulator.Types.{VAddr}

pub data SymbolType : Type 0 where
  unknown function object tls no_type : SymbolType

pub record SymbolRecord : Type 0 where
  pub name : Str
  pub virtual_address : VAddr
  pub sym_type : SymbolType
  pub library : Str
  pub module_name : Str

abbrev pub Entries : Type 0
Entries = List (Str × SymbolRecord)

pub record SymbolResolver : Type 0 where
  pub symbols : Entries

-- `SymbolResolver::new`
unfoldable pub new : SymbolResolver
new = record { symbols = [] }

-- `get` and `insert` of the hash map.
abbrev pub get : Entries → Str → Option SymbolRecord
get [] nid = none
get ((k, r) ∷ rest) nid = if str_eq k nid then some r else get rest nid

abbrev pub insert : Entries → Str → SymbolRecord → Entries
insert [] nid record_of = (nid, record_of) ∷ []
insert ((k, r) ∷ rest) nid record_of =
    if str_eq k nid then (k, record_of) ∷ rest else (k, r) ∷ insert rest nid record_of

unfoldable pub add_symbol : SymbolResolver → Str → SymbolRecord → SymbolResolver
add_symbol self nid record_of = record self { symbols = insert self.symbols nid record_of }

unfoldable pub find_symbol : SymbolResolver → Str → Option SymbolRecord
find_symbol self nid = get self.symbols nid

-- The loop of `resolve` over the records.
abbrev pub by_name : Entries → Str → Option VAddr
by_name [] name = none
by_name ((_, rec) ∷ rest) name =
    if str_eq rec.name name then some rec.virtual_address else by_name rest name

unfoldable pub resolve : (Entries → Entries) → SymbolResolver → Str → Option VAddr
resolve walk self name = elim (get self.symbols name) [
  | some rec ↦ some rec.virtual_address
  | none ↦ by_name (walk self.symbols) name
]

-- `len`
unfoldable pub symbol_count : SymbolResolver → ℕ
symbol_count self = length self.symbols

unfoldable pub is_empty : SymbolResolver → Bool
is_empty self = length self.symbols == 0

-- The loop of `merge`.
abbrev pub insert_all : Entries → Entries → Entries
insert_all symbols [] = symbols
insert_all symbols ((nid, rec) ∷ rest) = insert_all (insert symbols nid rec) rest

unfoldable pub merge : (Entries → Entries) → SymbolResolver → SymbolResolver → SymbolResolver
merge walk self other = record self { symbols = insert_all self.symbols (walk other.symbols) }

-- A placeholder in the code: the raw name.
unfoldable pub encode_nid : Str → Str → Str → Str
encode_nid name library module_name = name
