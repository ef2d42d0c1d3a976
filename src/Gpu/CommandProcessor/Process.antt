-- ===== src/Gpu/CommandProcessor/Process.antt =====
-- The command processor's loop (crates/gpu/src/liverpool/command_processor.rs): it ends on every buffer, and
-- on a buffer made of packets it runs them in order.
use anotherps4_emulator.Common.{
  ℕ, zero, suc, ◌+◌, ◌-◌, ◌%◌, ◌^◌, ◌≤◌, ◌<◌, ◌≡◌, refl, sym, ap, ◌∙◌, min, List, [], ◌∷◌, ◌++◌,
  none, some, length, get_elem?, take, drop, All, arith, Option-cases, inl, inr, length-append,
  get_elem?-append,
}
use anotherps4_emulator.Types.{add64}
use anotherps4_emulator.Gpu.Pm4.{Pm4Opcode, type3, parse_pm4_header}
use anotherps4_emulator.Gpu.Pm4.Laws.{command_header, parse-command_header}
use anotherps4_emulator.Gpu.Regs.{GpuRegs}
use anotherps4_emulator.Gpu.CommandProcessor.{
  CommandProcessor, packet_step, process_from, process_command_buffer, process_type3_packet,
}
use mathlib.Core.List.{append_assoc, append-nil}

get_elem?-none : (l : List ℕ) (i : ℕ) → length l ≤ i → get_elem? l i ≡ none
get_elem?-none [] i h = refl
get_elem?-none (x ∷ l) zero h = absurd (omega arith)
get_elem?-none (x ∷ l) (suc i) h = get_elem?-none l i (omega arith)

get_elem?-some : (l : List ℕ) (i w : ℕ) → get_elem? l i ≡ some w → i < length l
get_elem?-some [] i w h = absurd (cc)
get_elem?-some (x ∷ l) zero w h = omega arith
get_elem?-some (x ∷ l) (suc i) w h = omega (arith, get_elem?-some l i w h)

-- A round moves forward.
packet_step-lt :
    (dcb : List ℕ) (offset word : ℕ) (regs : GpuRegs)
    → offset < length dcb
    → offset < (packet_step dcb offset word regs).1
unfolding packet_step
packet_step-lt dcb offset word regs h = ground arith

process_from_total :
    (fuel offset : ℕ) (dcb : List ℕ) (regs : GpuRegs)
    → length dcb ≤ offset + fuel
    → (regs' : GpuRegs) × (process_from fuel offset dcb regs ≡ some regs')
unfolding process_from
process_from_total zero offset dcb regs h = (regs, ground arith)
process_from_total (suc fuel) offset dcb regs h = elim (Option-cases (get_elem? dcb offset)) [
  | inl e ↦ (regs, rw (e, process_from))
  | inr (word, e) ↦
      let (regs', offset') = packet_step dcb offset word regs in
      let lt = packet_step-lt dcb offset word regs (get_elem?-some dcb offset word e) in
      let (end, eq) = process_from_total fuel offset' dcb regs' (omega arith) in
      (end, rw (e, process_from) eq)
]

-- On every buffer the loop ends within its fuel, and one submission is counted.
pub process_command_buffer_total :
    (self : CommandProcessor) (dcb : List ℕ)
    → (self' : CommandProcessor) × (process_command_buffer self dcb ≡ some self')
      × (self'.submit_count ≡ (self.submit_count + 1) % 2 ^ 64)
unfolding process_command_buffer
process_command_buffer_total self dcb =
    let (regs', e) = process_from_total (length dcb) 0 dcb self.regs (omega arith) in
    (
      record { regs = regs'; submit_count = add64 self.submit_count 1 },
      rw (e, process_command_buffer),
      refl,
    )

-- A packet of a well-formed buffer: a filler word, or a command with a body of at least one word.
pub data Packet : Type 0 where
  filler : Packet
  command : Pm4Opcode → ℕ → List ℕ → Packet

abbrev pub words : Packet → List ℕ
words filler = 0x8000_0000 ∷ []
words (command opcode w ws) = command_header opcode (length ws) ∷ w ∷ ws

abbrev pub words_of : List Packet → List ℕ
words_of [] = []
words_of (p ∷ ps) = words p ++ words_of ps

-- The count field holds the body's length less one.
abbrev pub Encodable : Packet → Type 0
Encodable filler = Unit
Encodable (command opcode w ws) = length ws < 2 ^ 14

abbrev pub execute : Packet → GpuRegs → GpuRegs
execute filler regs = regs
execute (command opcode w ws) regs = process_type3_packet opcode (w ∷ ws) regs

abbrev pub execute_all : List Packet → GpuRegs → GpuRegs
execute_all [] regs = regs
execute_all (p ∷ ps) regs = execute_all ps (execute p regs)

drop_behind :
    (front : List ℕ) (x : ℕ) (back : List ℕ) (n : ℕ)
    → n ≡ suc (length front)
    → drop n (front ++ x ∷ back) ≡ back
drop_behind front x back zero e = absurd (omega arith)
drop_behind [] x back (suc zero) e = refl
drop_behind [] x back (suc (suc n)) e = absurd (omega arith)
drop_behind (y ∷ front) x back (suc n) e = drop_behind front x back n (omega arith)

take_front : (l back : List ℕ) (n : ℕ) → n ≡ length l → take n (l ++ back) ≡ l
take_front [] back zero e = refl
take_front [] back (suc n) e = absurd (omega arith)
take_front (x ∷ l) back zero e = absurd (omega arith)
take_front (x ∷ l) back (suc n) e = ap (λ r. x ∷ r) (take_front l back n (omega arith))

-- One round on a command that stands behind `front` runs it and moves behind it.
packet_step_command :
    (front : List ℕ) (opcode : Pm4Opcode) (w : ℕ) (ws rest : List ℕ) (regs : GpuRegs)
    → length ws < 2 ^ 14
    → packet_step
        (front ++ (words (command opcode w ws) ++ rest))
        (length front)
        (command_header opcode (length ws))
        regs
      ≡ (process_type3_packet opcode (w ∷ ws) regs, length front + suc (suc (length ws)))
unfolding packet_step
packet_step_command front opcode w ws rest regs h =
    let dcb : List ℕ = front ++ (words (command opcode w ws) ++ rest) in
    let n : length dcb ≡ length front + suc (suc (length ws)) + length rest =
      omega
        (arith, length-append front (words (command opcode w ws) ++ rest), length-append ws rest) in
    let d : drop (length front + 1) dcb ≡ w ∷ (ws ++ rest) =
      drop_behind front (command_header opcode (length ws)) (w ∷ (ws ++ rest)) (length front + 1)
        (omega arith) in
    let m : min (length front + 1 + (length ws + 1)) (length dcb)
        ≡ length front + suc (suc (length ws)) =
      omega arith in
    let t : take (length front + suc (suc (length ws)) - (length front + 1)) (w ∷ (ws ++ rest))
        ≡ w ∷ ws =
      take_front (w ∷ ws) rest (length front + suc (suc (length ws)) - (length front + 1))
        (omega arith) in
    let hp = parse-command_header opcode (length ws) h in
    let ty : (parse_pm4_header (command_header opcode (length ws))).packet_type ≡ type3 =
      ap (λ r. r.packet_type) hp in
    let co : (parse_pm4_header (command_header opcode (length ws))).count ≡ length ws =
      ap (λ r. r.count) hp in
    let op : (parse_pm4_header (command_header opcode (length ws))).opcode ≡ some opcode =
      ap (λ r. r.opcode) hp in
    rw (packet_step, ty, co, op, d, m, t) refl

packet_step_filler :
    (dcb : List ℕ) (offset : ℕ) (regs : GpuRegs)
    → packet_step dcb offset 0x8000_0000 regs ≡ (regs, offset + 1)
unfolding packet_step parse_pm4_header
packet_step_filler dcb offset regs = refl

-- Behind `front`, enough fuel runs the packets in order.
process_from_packets :
    (ps : List Packet) (front dcb : List ℕ) (offset fuel : ℕ) (regs : GpuRegs)
    → All Encodable ps
    → length (words_of ps) ≤ fuel
    → offset ≡ length front
    → dcb ≡ front ++ words_of ps
    → process_from fuel offset dcb regs ≡ some (execute_all ps regs)
unfolding process_from
process_from_packets [] front dcb offset zero regs a h o e =
    rw (e, append-nil front, o) (ground arith)
process_from_packets [] front dcb offset (suc fuel) regs a h o e =
    rw (e, append-nil front, o, get_elem?-none front (length front) (omega arith), process_from)
      refl
process_from_packets (filler ∷ ps) front dcb offset zero regs a h o e = absurd (omega arith)
process_from_packets (filler ∷ ps) front dcb offset (suc fuel) regs a h o e =
    let front' : List ℕ = front ++ (0x8000_0000 ∷ []) in
    let rest =
      process_from_packets ps front' dcb (offset + 1) fuel regs a.1 (omega arith)
        (omega (arith, length-append front (0x8000_0000 ∷ [])))
        (e ∙ sym (append_assoc front (0x8000_0000 ∷ []) (words_of ps))) in
    let g : get_elem? dcb offset ≡ some 0x8000_0000 =
      rw (e, o) (get_elem?-append front 0x8000_0000 (words_of ps)) in
    rw (g, process_from, packet_step_filler dcb offset regs) rest
process_from_packets (command opcode w ws ∷ ps) front dcb offset zero regs a h o e =
    absurd (omega arith)
process_from_packets (command opcode w ws ∷ ps) front dcb offset (suc fuel) regs a h o e =
    let p : List ℕ = words (command opcode w ws) in
    let n = length-append ws (words_of ps) in
    let rest =
      process_from_packets ps (front ++ p) dcb (offset + suc (suc (length ws))) fuel
        (process_type3_packet opcode (w ∷ ws) regs) a.1 (omega arith)
        (omega (arith, length-append front p)) (e ∙ sym (append_assoc front p (words_of ps))) in
    let g : get_elem? dcb offset ≡ some (command_header opcode (length ws)) =
      rw (e, o)
        (get_elem?-append front (command_header opcode (length ws)) (w ∷ (ws ++ words_of ps))) in
    let s : packet_step dcb offset (command_header opcode (length ws)) regs
        ≡ (process_type3_packet opcode (w ∷ ws) regs, offset + suc (suc (length ws))) =
      rw (e, o) (packet_step_command front opcode w ws (words_of ps) regs a.0) in
    rw (g, process_from, s) rest

-- A buffer made of filler words and commands with a body of 1 to 2 ^ 14 words is run packet by packet,
-- in order, to its end, each command on exactly its own body, and counted as one submission.
pub process_command_buffer_packets :
    (self : CommandProcessor) (ps : List Packet)
    → All Encodable ps
    → process_command_buffer self (words_of ps)
      ≡ some (record { regs = execute_all ps self.regs; submit_count = add64 self.submit_count 1 })
unfolding process_command_buffer
process_command_buffer_packets self ps a =
    rw
      (
        process_from_packets ps [] (words_of ps) 0 (length (words_of ps)) self.regs a (omega arith)
            refl refl,
        process_command_buffer,
      )
      refl
