-- ===== src/Linker/ImportTests.antt =====
-- Imports at concrete inputs: one that the registry knows, and one of a known name that gets a stub and is called.
use anotherps4_emulator.Common.{ℕ, ◌+◌, ◌≡◌, refl, [], ◌∷◌, none, true, arith}
use anotherps4_emulator.Common.Int.{pos}
use anotherps4_emulator.Common.Text.{codes}
use anotherps4_emulator.Hle.Bytes.{Bytes, fetch, copy}
use anotherps4_emulator.Hle.Stubs.{StubAllocator, Name}
use anotherps4_emulator.Hle.Signals.{Args, Context, resumed, is_float_function}
use anotherps4_emulator.Hle.Signals.Composed.{outcome_of_call}
use anotherps4_emulator.Loader.Symbols.{
  Str, Entries, SymbolType, SymbolRecord, SymbolResolver, add_symbol,
}
use anotherps4_emulator.Linker.Relocation.{ParsedRelocation, apply_relocation}
use anotherps4_emulator.Linker.Imports.{apply_relocation-add_symbol}

abbrev walk : Entries → Entries
walk entries = entries

abbrev empty : SymbolResolver
empty = record { symbols = [] }

abbrev exported : SymbolRecord
exported = record {
  name = codes "sceFoo";
  virtual_address = 0x9000;
  sym_type = SymbolType.function;
  library = [];
  module_name = [];
}

abbrev import_of : Str → ℕ → ParsedRelocation
import_of symbol_name addend = record {
  offset = 0x18;
  rel_type = 7;
  addend = pos addend;
  symbol_name = symbol_name;
  symbol_binding = 1;
  symbol_type = 2;
  is_jmp_rel = true;
}

abbrev no_bytes : Bytes
no_bytes at = 0

apply_relocation-add_symbol_example :
    let after =
      apply_relocation walk
        (import_of (codes "foo#A#B") 4)
        0x1000
        (add_symbol empty (codes "foo") exported)
        (none, no_bytes) in
    (fetch 8 0x1018 after.1 ≡ 0x9004) × (after.0 ≡ none)
apply_relocation-add_symbol_example =
    apply_relocation-add_symbol walk empty (codes "foo") (codes "A#B") exported
      (import_of (codes "foo#A#B") 4) 0x1000 none no_bytes (omega arith) refl refl

abbrev stubs : StubAllocator
stubs = record { base = 0x5000; used = 0; names = [] }

-- `malloc` under its key, with an identifier of the library and of the module.
abbrev malloc : ParsedRelocation
malloc = import_of (codes "gQX+4GDQjpM#A#B") 0

-- A thread at the first stub.
abbrev calling : Context
calling = record {
  regs = record {
    rax = 20;
    rcx = 4;
    rdx = 3;
    rdi = 64;
    rsi = 2;
    r8 = 5;
    r9 = 6;
    r10 = 7;
    rbp = 0x2000;
    rsp = 0x3000;
    rip = 0x5000;
    fpregs = none;
  };
  bytes = copy (0x0f ∷ 0x0b ∷ []) 0x5000 no_bytes;
  fs = 0;
}

-- An exported function that answers its first argument and one.
abbrev dispatch : Name → Args → Bytes → ℕ × Bytes
dispatch name args bytes = (args.rdi + 1, bytes)

malloc_run :
    outcome_of_call dispatch 8 calling (codes "malloc")
    ≡ resumed (record {
      regs = record calling.regs { rax = 65; rip = fetch 8 0x3000 calling.bytes; rsp = 0x3008 };
      bytes = calling.bytes;
      fs = 8;
    })
unfolding is_float_function
malloc_run = refl
