-- ===== src/Kernel/Error.antt =====
-- The error codes of crates/core/src/kernel/mod.rs, as the signed numbers that the constants stand for.
use anotherps4_emulator.Common.{ℕ, zero, suc}
use anotherps4_emulator.Common.Int.{ℤ, pos, negsuc}

-- `-n`
abbrev neg : ℕ → ℤ
neg zero = pos 0
neg (suc n) = negsuc n

abbrev pub orbis_ok : ℤ
orbis_ok = pos 0

abbrev pub eperm : ℤ
eperm = neg 0x7FFE_0001

abbrev pub enoent : ℤ
enoent = neg 0x7FFE_0002

abbrev pub esrch : ℤ
esrch = neg 0x7FFE_0003

abbrev pub eintr : ℤ
eintr = neg 0x7FFE_0004

abbrev pub ebadf : ℤ
ebadf = neg 0x7FFE_0009

abbrev pub edeadlk : ℤ
edeadlk = neg 0x7FFE_000B

abbrev pub enomem : ℤ
enomem = neg 0x7FFE_000C

abbrev pub eacces : ℤ
eacces = neg 0x7FFE_000D

abbrev pub ebusy : ℤ
ebusy = neg 0x7FFE_0010

abbrev pub einval : ℤ
einval = neg 0x7FFE_0016

abbrev pub etimedout : ℤ
etimedout = neg 0x7FFE_003C

abbrev pub enosys : ℤ
enosys = neg 0x7FFE_004E
