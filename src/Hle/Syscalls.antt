-- ===== src/Hle/Syscalls.antt =====
-- crates/core/src/hle/dispatcher.rs, `patch_syscalls`: guest code has its `syscall`s turned into `ud2`.
pub mod Patched
use anotherps4_emulator.Common.{ℕ, zero, suc, ◌+◌, ◌-◌, ◌%◌, ◌^◌, Bool, ◌&&◌, ◌==◌, if◌then◌else◌}
use anotherps4_emulator.Types.{VAddr, sub64}
use anotherps4_emulator.Hle.Bytes.{Bytes, write}

-- Whether a `syscall`, `0F 05`, stands at `at`.
abbrev pub is_syscall : Bytes → VAddr → Bool
is_syscall bytes at = (bytes at == 0x0f) && (bytes (at + 1) == 0x05)

-- The loop from `offset` on, with `left` rounds to go: the bytes and the count, a `u32`.
unfoldable pub patch_from : VAddr → ℕ → ℕ → Bytes → ℕ → Bytes × ℕ
patch_from memory_base zero offset bytes patched_count = (bytes, patched_count)
patch_from memory_base (suc left) offset bytes patched_count =
    if is_syscall bytes (memory_base + offset)
    then patch_from memory_base left (offset + 1) (write bytes (memory_base + (offset + 1)) 0x0b)
        ((patched_count + 1) % 2 ^ 32)
    else patch_from memory_base left (offset + 1) bytes patched_count

-- `offset < size - 1` bounds the loop. For size 0 the bound wraps, as `usize` does.
unfoldable pub patch_syscalls : VAddr → ℕ → Bytes → Bytes × ℕ
patch_syscalls memory_base size bytes = patch_from memory_base (sub64 size 1) 0 bytes 0
