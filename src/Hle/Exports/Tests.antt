-- ===== src/Hle/Exports/Tests.antt =====
-- Runs and a witness for the exported functions on memory and strings.
use anotherps4_emulator.Common.{ℕ, ◌+◌, ◌≡◌, refl, inl, [], ◌∷◌, some, arith}
use anotherps4_emulator.Common.Text.{codes}
use anotherps4_emulator.Hle.Bytes.{Bytes, copy, fetch, store}
use anotherps4_emulator.Hle.Bytes.Words.{Outside}
use anotherps4_emulator.Hle.Exports.{
  strcat, cxa_guard_acquire, register_phys_mapping, phys_to_virt, find_mapping, memset, fill,
  slice_at,
}
use anotherps4_emulator.Hle.Exports.Strings.{StringAt, strcat_lem}

-- "ab" at 0x100 and "c" at 0x200.
abbrev bytes : Bytes
bytes = copy (codes "ab") 0x100 (copy (codes "c") 0x200 (λ at. 0))

strings : StringAt bytes 0x100 (codes "ab") × StringAt bytes 0x200 (codes "c")
unfolding copy
strings = ((refl, ground arith, (refl, ground arith, refl)), (refl, ground arith, refl))

strcat_lem_example :
    ((strcat 0x100 0x200 bytes).0 ≡ 0x100)
    × StringAt (strcat 0x100 0x200 bytes).1 0x100 (codes "abc")
    × ((x : ℕ) → Outside x (0x100 + 2) (1 + 1) → (strcat 0x100 0x200 bytes).1 x ≡ bytes x)
strcat_lem_example =
    strcat_lem 0x100 0x200 bytes (codes "ab") (codes "c") (ground arith) (ground arith) strings.0
      strings.1 (omega arith) (omega arith) (inl (omega arith))

-- A guard is acquired once; its release leaves it taken.
guard_run :
    (cxa_guard_acquire 8 (λ at. 0)).0 ≡ 1
    × (cxa_guard_acquire 8 (cxa_guard_acquire 8 (λ at. 0)).1).0 ≡ 0
unfolding cxa_guard_acquire fetch store
guard_run = (refl, refl)

phys_run : phys_to_virt 0x1010 (register_phys_mapping 0x1000 0x9000 0x100 (some [])) ≡ some 0x9010
unfolding phys_to_virt register_phys_mapping find_mapping
phys_run = refl

memset_run : slice_at 3 4 (memset 5 0x141 1 (λ at. 0)).1 ≡ 0 ∷ 0x41 ∷ 0 ∷ []
unfolding memset fill slice_at
memset_run = refl
