-- ===== src/Linker/Traps.antt =====
-- The scan of `load_module` (crates/core/src/linker/mod.rs) for the assertion traps of eboot.bin.
use anotherps4_emulator.Common.{ℕ, zero, suc, ◌+◌, Bool, ◌&&◌, ◌==◌, ltb, if◌then◌else◌}
use anotherps4_emulator.Types.{VAddr}
use anotherps4_emulator.Hle.Bytes
use anotherps4_emulator.Hle.Bytes.{write}

-- `85 C0 75 02 CD 41` at an address.
abbrev pub trap_at : Bytes.Bytes → VAddr → Bool
trap_at bytes addr =
    (bytes addr == 0x85)
    && ((bytes (addr + 1) == 0xC0)
        && ((bytes (addr + 2) == 0x75)
            && ((bytes (addr + 3) == 0x02)
                && ((bytes (addr + 4) == 0xCD) && (bytes (addr + 5) == 0x41)))))

-- `B8 0A 00 00 00 90` in its place.
abbrev pub patch_at : Bytes.Bytes → VAddr → Bytes.Bytes
patch_at bytes addr =
    let bytes' = write (write (write bytes addr 0xB8) (addr + 1) 0x0A) (addr + 2) 0 in
    write (write (write bytes' (addr + 3) 0) (addr + 4) 0) (addr + 5) 0x90

-- One turn of the scan: the next position, and the bytes.
abbrev pub scan_turn : VAddr → ℕ → Bytes.Bytes → ℕ × Bytes.Bytes
scan_turn base i bytes =
    if trap_at bytes (base + i) then (i + 6, patch_at bytes (base + i)) else (i + 1, bytes)

-- The scan from `i` on; each turn takes one unit of fuel.
unfoldable pub patch_traps : ℕ → VAddr → ℕ → ℕ → Bytes.Bytes → Bytes.Bytes
patch_traps zero base code_size i bytes = bytes
patch_traps (suc fuel) base code_size i bytes =
    if ltb (i + 5) code_size
    then (let (i', bytes') = scan_turn base i bytes in patch_traps fuel base code_size i' bytes')
    else bytes
