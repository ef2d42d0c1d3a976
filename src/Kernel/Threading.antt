-- ===== src/Kernel/Threading.antt =====
-- crates/core/src/kernel/threading.rs: the table of guest threads. No host thread is started, so a thread is
-- its number and its name; the join handle, always `None`, is left out.
pub mod Ids
use anotherps4_emulator.Common.{ℕ, ◌*◌, List, [], ◌∷◌, ◌++◌, length}
use anotherps4_emulator.Common.Int.{ℤ, pos}
use anotherps4_emulator.Kernel.Error.{orbis_ok}
use anotherps4_emulator.Types.{add64}
use Prim.Native.String.{String}

pub record ThreadAttr : Type 0 where
  pub stack_size : ℕ
  pub priority : ℤ
  pub affinity_mask : ℕ
  pub name : String

-- `ThreadAttr::default`
unfoldable pub default_attr : ThreadAttr
default_attr = record {
  stack_size = 2 * 1024 * 1024;
  priority = pos 700;
  affinity_mask = 0xff;
  name = "OrbisThread";
}

pub record ThreadInfo : Type 0 where
  pub id : ℕ
  pub name : String

pub record ThreadManager : Type 0 where
  pub next_id : ℕ
  pub threads : List ThreadInfo

-- `ThreadManager::new`
unfoldable pub new : ThreadManager
new = record { next_id = 1; threads = [] }

-- `create_thread`, which has no failing branch.
unfoldable pub create_thread : ThreadManager → ThreadAttr → ThreadManager × ℕ
create_thread self attr =
    let thread_id = self.next_id in
    (
      record {
        next_id = add64 self.next_id 1;
        threads = self.threads ++ record { id = thread_id; name = attr.name } ∷ [];
      },
      thread_id,
    )

unfoldable pub thread_count : ThreadManager → ℕ
thread_count self = length self.threads

-- `sce_pthread_create`: the manager, the value written to `thread_out`, and the code.
unfoldable pub sce_pthread_create : ThreadManager → ThreadAttr → ThreadManager × ℕ × ℤ
sce_pthread_create manager attr =
    let (manager', id) = create_thread manager attr in (manager', id, orbis_ok)
