-- ===== src/Loader/Symbols/Tests.antt =====
-- Runs of the symbol registry (crates/core/src/loader/symbols.rs), and its theorems at concrete registries.
use anotherps4_emulator.Common.{◌≡◌, refl, [], ◌∷◌, some, none}
use anotherps4_emulator.Loader.Symbols.{
  Str, SymbolRecord, SymbolResolver, Entries, function, resolve,
}
use anotherps4_emulator.Loader.Symbols.Lookup.{Walks}

abbrev symbol : Str → SymbolRecord
symbol name = record {
  name = name;
  virtual_address = 0x1000;
  sym_type = function;
  library = [];
  module_name = [];
}

abbrev registry : SymbolResolver
registry = record { symbols = (1 ∷ [], symbol (7 ∷ [])) ∷ (2 ∷ [], symbol (8 ∷ [])) ∷ [] }

abbrev exports : SymbolResolver
exports = record {
  symbols =
      (2 ∷ [], record (symbol (9 ∷ [])) { virtual_address = 0x2000 })
      ∷ (3 ∷ [], symbol (5 ∷ []))
      ∷ [];
}

abbrev walk : Entries → Entries
walk entries = entries

resolve_run :
    (resolve walk registry (2 ∷ []) ≡ some 0x1000)
    × (resolve walk registry (8 ∷ []) ≡ some 0x1000)
    × (resolve walk registry (9 ∷ []) ≡ none)
unfolding resolve
resolve_run = (refl, refl, refl)

exports-Walks : Walks exports.symbols (walk exports.symbols)
exports-Walks = record { keyed = (refl, (refl, tt)); same = λ nid. refl }
