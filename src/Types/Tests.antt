-- ===== src/Types/Tests.antt =====
-- Runs of the alignment helpers (crates/common/src/types.rs), and its theorems at concrete values.
use anotherps4_emulator.Common.{◌≡◌, refl, true, false}
use anotherps4_emulator.Types.{align_up, align_down, is_aligned, page_size}

-- The tests of types.rs.
align_runs :
    (align_up 0 page_size ≡ 0)
    × (align_up 1 page_size ≡ 16384)
    × (align_up 16384 page_size ≡ 16384)
    × (align_up 16385 page_size ≡ 32768)
    × (align_down 16385 page_size ≡ 16384)
    × (is_aligned 16384 page_size ≡ true)
    × (is_aligned 1 page_size ≡ false)
unfolding align_up align_down is_aligned
align_runs = (refl, refl, refl, refl, refl, refl, refl)
