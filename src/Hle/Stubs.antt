-- ===== src/Hle/Stubs.antt =====
-- crates/core/src/hle/stubs.rs: the trampolines of unresolved functions. The allocator behind the global
-- mutex is an `Option`, passed on explicitly; a name is its bytes.
pub mod Lookup
pub mod Fill
use anotherps4_emulator.Common.{
  ℕ, zero, suc, ◌+◌, ◌-◌, ◌*◌, ◌/◌, List, [], ◌∷◌, ◌++◌, Option, none, some, Bool, true, false,
  ◌&&◌, ltb, leb, get_elem?, if◌then◌else◌,
}
use anotherps4_emulator.Types.{VAddr, add64}
use anotherps4_emulator.Hle.Bytes.{Bytes, write}

abbrev pub stub_size : ℕ
stub_size = 16

abbrev pub max_stubs : ℕ
max_stubs = 4096

abbrev pub stub_region_size : ℕ
stub_region_size = stub_size * max_stubs

abbrev pub Name : Type 0
Name = List ℕ

pub record StubAllocator : Type 0 where
  pub base : VAddr
  pub used : ℕ
  pub names : List Name

-- The bytes from `j` on of a slot are set to `nop`; `left` of them are left.
unfoldable pub fill_nops : VAddr → ℕ → ℕ → Bytes → Bytes
fill_nops slot zero j bytes = bytes
fill_nops slot (suc left) j bytes = fill_nops slot left (j + 1) (write bytes (slot + j) 0x90)

-- One slot: `ud2`, then `nop`s.
abbrev pub fill_slot : VAddr → Bytes → Bytes
fill_slot slot bytes =
    fill_nops slot (stub_size - 2) 2 (write (write bytes slot 0x0f) (slot + 1) 0x0b)

-- The `for i in 0..MAX_STUBS` loop from slot `i` on; `left` slots are left.
unfoldable pub fill_slots : VAddr → ℕ → ℕ → Bytes → Bytes
fill_slots base zero i bytes = bytes
fill_slots base (suc left) i bytes =
    fill_slots base left (i + 1) (fill_slot (base + i * stub_size) bytes)

-- `StubAllocator::new`, on what `mmap` answers; `none` is the error.
unfoldable pub new : Option VAddr → Bytes → Option (StubAllocator × Bytes)
new none bytes = none
new (some base) bytes =
    some (record { base = base; used = 0; names = [] }, fill_slots base max_stubs 0 bytes)

unfoldable pub next_stub : StubAllocator → Name → Option VAddr × StubAllocator
next_stub self name = if leb max_stubs self.used then (none, self) else (
  some (self.base + self.used * stub_size),
  record { base = self.base; used = self.used + 1; names = self.names ++ (name ∷ []) },
)

-- `init`: the new state of the global, and the bytes; `none` is the error.
unfoldable pub init : Option VAddr → Bytes → Option (Option StubAllocator × Bytes)
init mapped bytes = elim (new mapped bytes) [
  | none ↦ none
  | some (alloc, bytes') ↦ some (some alloc, bytes')
]

abbrev pub unwrap_or_zero : Option VAddr → VAddr
unwrap_or_zero none = 0
unwrap_or_zero (some address) = address

unfoldable pub allocate_stub : Option StubAllocator → Name → VAddr × Option StubAllocator
allocate_stub none name = (0, none)
allocate_stub (some alloc) name =
    let (answer, alloc') = next_stub alloc name in (unwrap_or_zero answer, some alloc')

-- `"UnknownStub"`
abbrev pub unknown_stub : Name
unknown_stub = 85 ∷ 110 ∷ 107 ∷ 110 ∷ 111 ∷ 119 ∷ 110 ∷ 83 ∷ 116 ∷ 117 ∷ 98 ∷ []

abbrev pub name_or_unknown : Option Name → Name
name_or_unknown none = unknown_stub
name_or_unknown (some name) = name

unfoldable pub get_stub_name : Option StubAllocator → ℕ → Name
get_stub_name none idx = unknown_stub
get_stub_name (some alloc) idx = name_or_unknown (get_elem? alloc.names idx)

unfoldable pub stub_count : Option StubAllocator → ℕ
stub_count none = 0
stub_count (some alloc) = alloc.used

unfoldable pub is_stub : Option StubAllocator → VAddr → Bool
is_stub none addr = false
is_stub (some alloc) addr =
    leb alloc.base addr && ltb addr (add64 alloc.base (alloc.used * stub_size))

unfoldable pub get_stub_index : Option StubAllocator → VAddr → Option ℕ
get_stub_index none addr = none
get_stub_index (some alloc) addr =
    if leb alloc.base addr && ltb addr (add64 alloc.base (alloc.used * stub_size))
    then some ((addr - alloc.base) / stub_size)
    else none
