-- ===== src/Hle/Tests.antt =====
-- Runs of the stub allocator and of the `syscall` patcher (crates/core/src/hle), and their theorems at
-- concrete states.
use anotherps4_emulator.Common.{
  ℕ, ◌+◌, ◌-◌, ◌%◌, ◌^◌, ◌≡◌, refl, [], ◌∷◌, some, true, false, ◌==◌, if◌then◌else◌, arith,
}
use anotherps4_emulator.Types.{VAddr}
use anotherps4_emulator.Hle.Bytes.{Bytes}
use anotherps4_emulator.Hle.Stubs
use anotherps4_emulator.Hle.Stubs.{
  StubAllocator, allocate_stub, get_stub_index, get_stub_name, is_stub, next_stub, stub_count, init,
  stub_region_size,
}
use anotherps4_emulator.Hle.Stubs.Lookup.{IsWellFormed, stub_address, allocate_stub_lem}
use anotherps4_emulator.Hle.Stubs.Fill.{inside, trap_byte, new_traps}
use anotherps4_emulator.Hle.Syscalls.{patch_syscalls, patch_from}
use anotherps4_emulator.Hle.Syscalls.Patched.{hit, syscalls, patch_syscalls_lem}

abbrev stubs : StubAllocator
stubs = record { base = 0x70_0000; used = 2; names = (97 ∷ []) ∷ (98 ∷ []) ∷ [] }

stubs-IsWellFormed : IsWellFormed stubs
stubs-IsWellFormed = ground arith

allocate_stub_run :
    let (addr, after) = allocate_stub (some stubs) (99 ∷ []) in
    (addr ≡ 0x70_0020)
    × (get_stub_index after (addr + 3) ≡ some 2)
    × (get_stub_name after 2 ≡ 99 ∷ [])
    × (is_stub (some stubs) addr ≡ false)
    × (stub_count after ≡ 3)
unfolding allocate_stub next_stub get_stub_index get_stub_name is_stub stub_count
allocate_stub_run = (refl, refl, refl, refl, refl)

allocate_stub_lem_example :
    (alloc' : StubAllocator) × (allocate_stub (some stubs) (99 ∷ [])
      ≡ (stub_address stubs stubs.used, some alloc'))
    × IsWellFormed alloc'
    × (is_stub (some alloc') (stub_address stubs stubs.used) ≡ true)
    × (get_stub_index (some alloc') (stub_address stubs stubs.used) ≡ some stubs.used)
    × (get_stub_name (some alloc') stubs.used ≡ 99 ∷ [])
allocate_stub_lem_example = allocate_stub_lem stubs (99 ∷ []) stubs-IsWellFormed (omega arith)

-- Bytes that are all 0 but for `syscall` at 0x1001, and `0F` at the end of the region.
abbrev code : Bytes
code at =
    if at == 0x1001 then 0x0f else if at == 0x1002 then 0x05 else if at == 0x1007 then 0x0f else 0

patch_syscalls_run :
    let after = patch_syscalls 0x1000 8 code in
    (after.0 0x1001 ≡ 0x0f) × (after.0 0x1002 ≡ 0x0b) × (after.0 0x1007 ≡ 0x0f) × (after.1 ≡ 1)
unfolding patch_syscalls patch_from
patch_syscalls_run = (refl, refl, refl, refl)

new_traps_example :
    (bytes' : Bytes) × (Stubs.new (some 0x70_0000) code
      ≡ some (record { base = 0x70_0000; used = 0; names = [] }, bytes'))
    × ((a : ℕ)
        → bytes' a ≡ (
            if inside 0x70_0000 stub_region_size a
            then trap_byte ((a - 0x70_0000) % 16)
            else code a))
new_traps_example = new_traps 0x70_0000 code

patch_syscalls_lem_example :
    let after = patch_syscalls 0x1000 8 code in
    ((a : VAddr) → after.0 a ≡ (if hit code 0x1000 (8 - 1) a then 0x0b else code a))
    × (after.1 ≡ syscalls code 0x1000 (8 - 1) % 2 ^ 32)
patch_syscalls_lem_example = patch_syscalls_lem 0x1000 8 code (omega arith) (omega arith)
