-- ===== src/Memory/AddressSpace.antt =====
-- crates/core/src/memory/address_space.rs: the host mappings behind the guest's memory. The host's C
-- library is a parameter, `Libc`; the errors' texts and the trace output are left out.
use anotherps4_emulator.Common.{
  ℕ, ◌*◌, List, [], ◌∷◌, ◌++◌, Option, none, some, Bool, true, false, ◌==◌, if◌then◌else◌,
}
use anotherps4_emulator.Types.{VAddr, user_size}

-- The protection argument of `mmap` and `mprotect`, flag by flag; all false is `PROT_NONE`.
pub record Prot : Type 0 where
  pub read : Bool
  pub write : Bool
  pub exec : Bool

-- The calls of the C library. `mmap` is given the address, the length, the protection and whether
-- `MAP_FIXED` is set (each call also sets `MAP_PRIVATE` and `MAP_ANONYMOUS`); `none` is `MAP_FAILED`.
-- `munmap` and `mprotect` answer whether they succeed.
pub record Libc : Type 0 where
  pub mmap : VAddr → ℕ → Prot → Bool → Option VAddr
  pub munmap : VAddr → ℕ → Bool
  pub mprotect : VAddr → ℕ → Prot → Bool

pub record AddressSpace : Type 0 where
  pub backing_base : VAddr
  pub backing_size : ℕ
  pub system_managed_base : VAddr
  pub system_managed_size : ℕ
  pub system_reserved_base : VAddr
  pub system_reserved_size : ℕ
  pub user_base : VAddr
  pub user_region_size : ℕ

abbrev pub backing_bytes : ℕ
backing_bytes = 8 * 1024 * 1024 * 1024

abbrev pub system_managed_bytes : ℕ
system_managed_bytes = 512 * 1024 * 1024

abbrev pub system_reserved_bytes : ℕ
system_reserved_bytes = 3232 * 1024 * 1024

infixl 5 ◌>>=◌
abbrev ◌>>=◌ : {A B : Type 0} → Option A → (A → Option B) → Option B
none >>= f = none
some a >>= f = f a

abbrev prot_none : Prot
prot_none = record { read = false; write = false; exec = false }

abbrev prot_rw : Prot
prot_rw = record { read = true; write = true; exec = false }

module _ (libc : Libc) where
  -- `mmap_reserve`, with its hint of a low address.
  unfoldable pub mmap_reserve : ℕ → Option VAddr
  mmap_reserve size = libc.mmap 0x10_0000_0000 size prot_none false

  unfoldable pub mmap_anonymous : ℕ → Option VAddr
  mmap_anonymous size = libc.mmap 0 size prot_rw false

  -- `AddressSpace::new`
  unfoldable pub new : Option AddressSpace
  unfolding mmap_reserve mmap_anonymous
  new = do
    backing_base ← mmap_anonymous backing_bytes
    user_base ← mmap_reserve user_size
    system_managed_base ← mmap_reserve system_managed_bytes
    system_reserved_base ← mmap_reserve system_reserved_bytes
    some (record {
      backing_base = backing_base;
      backing_size = backing_bytes;
      system_managed_base = system_managed_base;
      system_managed_size = system_managed_bytes;
      system_reserved_base = system_reserved_base;
      system_reserved_size = system_reserved_bytes;
      user_base = user_base;
      user_region_size = user_size;
    })

  -- `AddressSpace::map`; the physical offset is only traced.
  unfoldable pub map : VAddr → ℕ → ℕ → Bool → Option VAddr
  map virtual_addr size phys_offset executable =
      libc.mmap virtual_addr size
        (if executable then record { read = true; write = true; exec = true } else prot_rw) true

  -- `AddressSpace::unmap`
  unfoldable pub unmap : VAddr → ℕ → Bool
  unmap virtual_addr size = libc.munmap virtual_addr size

  -- `AddressSpace::protect`
  unfoldable pub protect : VAddr → ℕ → Bool → Bool → Bool → Bool
  protect virtual_addr size read write exec =
      libc.mprotect virtual_addr size (record { read = read; write = write; exec = exec })

-- `Drop for AddressSpace`: the ranges that it hands to `munmap`, in order.
abbrev release : VAddr → ℕ → List (VAddr × ℕ)
release base size = if base == 0 then [] else (base, size) ∷ []

unfoldable pub drop_ranges : AddressSpace → List (VAddr × ℕ)
drop_ranges self =
    release self.backing_base self.backing_size
    ++ (release self.user_base self.user_region_size
        ++ (release self.system_managed_base self.system_managed_size
            ++ release self.system_reserved_base self.system_reserved_size))
