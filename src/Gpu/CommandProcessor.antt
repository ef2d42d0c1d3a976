-- ===== src/Gpu/CommandProcessor.antt =====
-- crates/gpu/src/liverpool/command_processor.rs: the loop over a command buffer, and what each packet does to
-- the registers.
pub mod Process
use anotherps4_emulator.Common.{
  ℕ, zero, suc, ◌+◌, ◌-◌, ◌*◌, ◌%◌, ◌^◌, min, List, [], ◌∷◌, Option, none, some, length, get_elem?,
  take, drop, ltb, if◌then◌else◌, bit_or,
}
use anotherps4_emulator.Types.{add64}
use anotherps4_emulator.Gpu.Pm4.{
  Pm4Opcode, Pm4Header, type0, type2, type3, parse_pm4_header, set_context_reg, set_sh_reg,
  set_config_reg, set_uconfig_reg, num_instances, index_base, index_type, index_buffer_size,
}
use anotherps4_emulator.Gpu.Regs.{
  GpuRegs, default_regs, write_context_reg, write_sh_reg, write_config_reg, write_uconfig_reg,
}

pub record CommandProcessor : Type 0 where
  pub regs : GpuRegs
  pub submit_count : ℕ

-- `CommandProcessor::new`
unfoldable pub new : CommandProcessor
new = record { regs = default_regs; submit_count = 0 }

-- The loop of the four register packets: the values go to consecutive registers from `reg_offset`.
unfoldable pub write_regs : (GpuRegs → ℕ → ℕ → GpuRegs) → ℕ → ℕ → List ℕ → GpuRegs → GpuRegs
write_regs write reg_offset i [] regs = regs
write_regs write reg_offset i (value ∷ values) regs =
    write_regs write reg_offset (i + 1) values (write regs ((reg_offset + i) % 2 ^ 32) value)

-- A register packet needs an offset and at least one value.
abbrev pub set_regs : (GpuRegs → ℕ → ℕ → GpuRegs) → List ℕ → GpuRegs → GpuRegs
set_regs write [] regs = regs
set_regs write (reg_offset ∷ []) regs = regs
set_regs write (reg_offset ∷ value ∷ values) regs =
    write_regs write reg_offset 0 (value ∷ values) regs

abbrev pub set_num_instances : List ℕ → GpuRegs → GpuRegs
set_num_instances [] regs = regs
set_num_instances (n ∷ _) regs = record regs { num_instances = n }

abbrev pub set_index_base : List ℕ → GpuRegs → GpuRegs
set_index_base [] regs = regs
set_index_base (low ∷ []) regs = regs
set_index_base (low ∷ high ∷ _) regs = record regs { index_base = bit_or low (high * 2 ^ 32) }

abbrev pub set_index_type : List ℕ → GpuRegs → GpuRegs
set_index_type [] regs = regs
set_index_type (t ∷ _) regs = record regs { index_type = t }

abbrev pub set_index_size : List ℕ → GpuRegs → GpuRegs
set_index_size [] regs = regs
set_index_size (n ∷ _) regs = record regs { index_size = n }

-- The packets that are left out here only trace.
unfoldable pub process_type3_packet : Pm4Opcode → List ℕ → GpuRegs → GpuRegs
process_type3_packet set_context_reg body regs = set_regs write_context_reg body regs
process_type3_packet set_sh_reg body regs = set_regs write_sh_reg body regs
process_type3_packet set_config_reg body regs = set_regs write_config_reg body regs
process_type3_packet set_uconfig_reg body regs = set_regs write_uconfig_reg body regs
process_type3_packet num_instances body regs = set_num_instances body regs
process_type3_packet index_base body regs = set_index_base body regs
process_type3_packet index_type body regs = set_index_type body regs
process_type3_packet index_buffer_size body regs = set_index_size body regs
process_type3_packet _ body regs = regs

abbrev pub run_opcode : Option Pm4Opcode → List ℕ → GpuRegs → GpuRegs
run_opcode none body regs = regs
run_opcode (some opcode) body regs = process_type3_packet opcode body regs

-- One round of the loop on the header word at `offset`: the registers and the next offset.
unfoldable pub packet_step : List ℕ → ℕ → ℕ → GpuRegs → GpuRegs × ℕ
packet_step dcb offset header_word regs =
    let header = parse_pm4_header header_word in
    let end = min (offset + 1 + (header.count + 1)) (length dcb) in
    let body = take (end - (offset + 1)) (drop (offset + 1) dcb) in
    elim header.packet_type [
      | type0 ↦ (regs, offset + 1)
      | type2 ↦ (regs, offset + 1)
      | type3 ↦ (run_opcode header.opcode body regs, end)
    ]

-- The `while offset < dcb.len()` loop on fuel; `none` says that the fuel ran out.
unfoldable pub process_from : ℕ → ℕ → List ℕ → GpuRegs → Option GpuRegs
process_from zero offset dcb regs = if ltb offset (length dcb) then none else some regs
process_from (suc fuel) offset dcb regs = elim (get_elem? dcb offset) [
  | none ↦ some regs
  | some header_word ↦
      let (regs', offset') = packet_step dcb offset header_word regs in
      process_from fuel offset' dcb regs'
]

-- `process_command_buffer`; a round for each word is enough.
unfoldable pub process_command_buffer : CommandProcessor → List ℕ → Option CommandProcessor
process_command_buffer self dcb = elim (process_from (length dcb) 0 dcb self.regs) [
  | none ↦ none
  | some regs ↦ some (record { regs = regs; submit_count = add64 self.submit_count 1 })
]
