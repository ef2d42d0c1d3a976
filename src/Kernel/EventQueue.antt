-- ===== src/Kernel/EventQueue.antt =====
-- crates/core/src/kernel/equeue.rs: event queues. A queue behind its mutex is a list, oldest event first.
pub mod Fifo
use anotherps4_emulator.Common.{
  ℕ, ◌+◌, min, List, [], ◌∷◌, ◌++◌, Option, none, some, length, take, drop,
}
use anotherps4_emulator.Common.Int.{ℤ}
use Prim.Native.String.{String}

pub record Event : Type 0 where
  pub ident : ℕ
  pub filter : ℤ
  pub flags : ℕ
  pub fflags : ℕ
  pub event_data : ℤ
  pub udata : ℕ

pub record EventQueue : Type 0 where
  pub name : String
  pub events : List Event

unfoldable pub new : String → EventQueue
new name = record { name = name; events = [] }

-- `add_event` only traces.
unfoldable pub add_event : EventQueue → Event → EventQueue
add_event self event = self

unfoldable pub trigger_event : EventQueue → Event → EventQueue
trigger_event self event = record self { events = self.events ++ event ∷ [] }

-- The part of `wait` under the second lock: at most `max_events` of the oldest events go out.
unfoldable pub drain : EventQueue → ℕ → EventQueue × List Event
drain self max_events =
    let count = min (length self.events) max_events in
    (record self { events = drop count self.events }, take count self.events)

-- Whether `wait` gives up the lock to sleep.
abbrev pub sleeps : List Event → Option ℕ → List Event → List Event
sleeps [] (some _) meanwhile = meanwhile
sleeps [] none meanwhile = []
sleeps (e ∷ events) timeout meanwhile = []

-- `wait`; `meanwhile` is what stands in the queue when it wakes up, if it sleeps on an empty one.
unfoldable pub wait : EventQueue → ℕ → Option ℕ → List Event → EventQueue × List Event
wait self max_events timeout meanwhile =
    drain (record self { events = self.events ++ sleeps self.events timeout meanwhile }) max_events

unfoldable pub pending_count : EventQueue → ℕ
pending_count self = length self.events

-- The queues that the manager holds, each shared with the caller that made it.
pub record EventQueueManager : Type 0 where
  pub queues : List EventQueue

unfoldable pub create_equeue : EventQueueManager → String → EventQueueManager × EventQueue
create_equeue self name = let eq = new name in (record { queues = self.queues ++ eq ∷ [] }, eq)

unfoldable pub queue_count : EventQueueManager → ℕ
queue_count self = length self.queues
