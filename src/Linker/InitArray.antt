-- ===== src/Linker/InitArray.antt =====
-- The functions that `get_init_array_funcs` finds (crates/core/src/linker/mod.rs), against the entries of the table.
use anotherps4_emulator.Common.{
  ℕ, zero, suc, ◌+◌, ◌-◌, ◌*◌, ◌/◌, ◌<◌, ◌≡◌, refl, inl, inr, min, List, [], ◌∷◌, ◌++◌, true, false,
  not, ◌==◌, ltb, leb, arith, Bool-cases, if◌then◌else◌,
}
use anotherps4_emulator.Types.{VAddr, add64}
use anotherps4_emulator.Hle.Bytes
use anotherps4_emulator.Hle.Bytes.{fetch}
use anotherps4_emulator.Linker.Start.{
  init_array_loop, init_array_funcs, get_init_array_funcs, init_limit,
}
use anotherps4_emulator.Linker.Module.{Module}
use anotherps4_emulator.Linker.Modules.{Linker}

-- `n` entries of a table from entry `i` on.
unfoldable pub entries : ℕ → VAddr → ℕ → Bytes.Bytes → List VAddr
entries zero addr i bytes = []
entries (suc n) addr i bytes = fetch 8 (add64 addr (i * 8)) bytes ∷ entries n addr (i + 1) bytes

-- The ones that are functions.
abbrev pub functions : List VAddr → List VAddr
functions [] = []
functions (f ∷ fs) = if ltb 0x1000 f then f ∷ functions fs else functions fs

abbrev pub up_to_zero : List VAddr → List VAddr
up_to_zero [] = []
up_to_zero (f ∷ fs) = if f == 0 then [] else f ∷ up_to_zero fs

sized_loop :
    (left n addr size i : ℕ) (bytes : Bytes.Bytes)
    → 0 < size
    → n ≡ min left ((size + 7) / 8 - i)
    → init_array_loop left addr size i bytes ≡ functions (entries n addr i bytes)
unfolding init_array_loop entries
sized_loop zero n addr size i bytes pos_size e =
    let none_left : n ≡ 0 = omega arith in rw (none_left) refl
sized_loop (suc left) zero addr size i bytes pos_size e =
    let done : leb size (i * 8) ≡ true = ground arith in
    let sized : ltb 0 size ≡ true = ground arith in rw (sized, done) refl
sized_loop (suc left) (suc n) addr size i bytes pos_size e =
    let ih = sized_loop left n addr size (i + 1) bytes pos_size (omega arith) in
    let more : leb size (i * 8) ≡ false = ground arith in
    let sized : ltb 0 size ≡ true = ground arith in
    let known : (size == 0) ≡ false = ground arith in rw (sized, more, known, ih) (ground arith)

init_array_loop_sized :
    (addr size : ℕ) (bytes : Bytes.Bytes)
    → 0 < size
    → init_array_loop init_limit addr size 0 bytes
      ≡ functions (entries (min init_limit ((size + 7) / 8)) addr 0 bytes)
init_array_loop_sized addr size bytes pos_size =
    sized_loop init_limit (min init_limit ((size + 7) / 8)) addr size 0 bytes pos_size (omega arith)

init_array_loop_ended :
    (left addr i : ℕ) (bytes : Bytes.Bytes)
    → init_array_loop left addr 0 i bytes ≡ functions (up_to_zero (entries left addr i bytes))
unfolding init_array_loop entries
init_array_loop_ended zero addr i bytes = refl
init_array_loop_ended (suc left) addr i bytes =
    let ih = init_array_loop_ended left addr (i + 1) bytes in ground (arith, ih)

-- The functions in the table of a module: all entries of a table whose size is known, or those before the first 0.
abbrev pub found : Bytes.Bytes → Module → List VAddr
found bytes m =
    if not (ltb 0x1000 m.init_array_addr)
    then []
    else if m.init_array_size == 0
    then functions (up_to_zero (entries init_limit m.init_array_addr 0 bytes))
    else functions
        (entries (min init_limit ((m.init_array_size + 7) / 8)) m.init_array_addr 0 bytes)

abbrev pub found_all : Bytes.Bytes → List Module → List VAddr
found_all bytes [] = []
found_all bytes (m ∷ modules) = found bytes m ++ found_all bytes modules

init_array_funcs_lem :
    (modules : List Module) (bytes : Bytes.Bytes)
    → init_array_funcs modules bytes ≡ found_all bytes modules
unfolding init_array_funcs
init_array_funcs_lem [] bytes = refl
init_array_funcs_lem (m ∷ modules) bytes =
    let ih = init_array_funcs_lem modules bytes in
    elim (Bool-cases (ltb 0x1000 m.init_array_addr)) [
      | inr low ↦ rw (low) ih
      | inl high ↦ elim (Bool-cases (m.init_array_size == 0)) [
        | inl ended ↦
            let e : m.init_array_size ≡ 0 = ground arith in
            rw (high, e, init_array_loop_ended init_limit m.init_array_addr 0 bytes, ih) refl
        | inr sized ↦
            rw
              (
                high,
                sized,
                init_array_loop_sized m.init_array_addr m.init_array_size bytes (ground arith),
                ih,
              )
              refl
      ]
    ]

-- Get_init_array_funcs returns, module by module, the entries above 0x1000 of each table at an address
-- above 0x1000: those before the first 0 where the size is 0, and else all of its entries, rounded up
-- to whole ones; of at most 10001 entries.
pub get_init_array_funcs_lem :
    (self : Linker) → get_init_array_funcs self ≡ found_all self.state.bytes self.modules
unfolding get_init_array_funcs
get_init_array_funcs_lem self = init_array_funcs_lem self.modules self.state.bytes
