-- ===== src/Kernel/EventQueue/Fifo.antt =====
-- Event queues deliver in order and lose nothing (crates/core/src/kernel/equeue.rs).
use anotherps4_emulator.Common.{
  ℕ, min, ◌≡◌, sym, ◌∙◌, ap, List, [], ◌∷◌, ◌++◌, Option, length, take-append-drop, length-take,
  arith,
}
use anotherps4_emulator.Kernel.EventQueue.{EventQueue, Event, trigger_event, drain, wait, sleeps}
use mathlib.Core.List.{append_assoc, append-nil}

-- What reaches a queue over time; a sleeping `wait` is a drain after what was triggered meanwhile.
pub data Action : Type 0 where
  trigger : Event → Action
  fetch : ℕ → Action

-- The queue after the actions, and all that the fetches returned, in order.
unfoldable pub run : List Action → EventQueue → EventQueue × List Event
run [] self = (self, [])
run (trigger event ∷ actions) self = run actions (trigger_event self event)
run (fetch max_events ∷ actions) self =
    let (self', first) = drain self max_events in
    let (end, later) = run actions self' in (end, first ++ later)

abbrev pub triggered : List Action → List Event
triggered [] = []
triggered (trigger event ∷ actions) = event ∷ triggered actions
triggered (fetch max_events ∷ actions) = triggered actions

-- Wait returns a front of the pending events, as many as there are and at most max_events, and keeps
-- the rest in order.
pub wait_lem :
    (self : EventQueue) (max_events : ℕ) (timeout : Option ℕ) (meanwhile : List Event)
    → let (self', got) = wait self max_events timeout meanwhile in
      (got ++ self'.events ≡ self.events ++ sleeps self.events timeout meanwhile)
      × (length got ≡ min max_events (length (self.events ++ sleeps self.events timeout meanwhile)))
unfolding wait drain
wait_lem self max_events timeout meanwhile =
    let all = self.events ++ sleeps self.events timeout meanwhile in
    let count = min (length all) max_events in
    (take-append-drop count all, omega (arith, length-take count all))

-- Over any sequence of triggers and fetches, what was returned and then what is pending is what was
-- pending at first and then triggered, in the same order.
pub run_fifo :
    (actions : List Action) (self : EventQueue)
    → (run actions self).1 ++ (run actions self).0.events ≡ self.events ++ triggered actions
unfolding run
run_fifo [] self = sym (append-nil self.events)
run_fifo (trigger event ∷ actions) self =
    run_fifo actions (trigger_event self event)
    ∙ unfold trigger_event in append_assoc self.events (event ∷ []) (triggered actions)
run_fifo (fetch max_events ∷ actions) self =
    let (self', first) = drain self max_events in
    let ih = run_fifo actions self' in
    let split : first ++ self'.events ≡ self.events =
      unfold drain in take-append-drop (min (length self.events) max_events) self.events in
    append_assoc first (run actions self').1 (run actions self').0.events
    ∙ ap (λ l. first ++ l) ih
    ∙ sym (append_assoc first self'.events (triggered actions))
    ∙ ap (λ l. l ++ triggered actions) split
