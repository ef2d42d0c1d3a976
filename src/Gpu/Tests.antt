-- ===== src/Gpu/Tests.antt =====
-- Runs of the command processor (crates/gpu/src/liverpool), and its theorems at concrete buffers.
use anotherps4_emulator.Common.{◌+◌, ◌%◌, ◌^◌, ◌≡◌, refl, [], ◌∷◌, List, some, arith}
use anotherps4_emulator.Types.{add64}
use anotherps4_emulator.Gpu.Pm4.{
  parse_pm4_header, from_u32, num_instances, set_context_reg, index_base, nop,
}
use anotherps4_emulator.Gpu.Regs.{default_regs, write_context_reg}
use anotherps4_emulator.Gpu.CommandProcessor.{
  CommandProcessor, process_command_buffer, process_from, packet_step, process_type3_packet,
  write_regs,
}
use anotherps4_emulator.Gpu.CommandProcessor.Process.{
  Packet, filler, command, words_of, execute_all, process_command_buffer_total,
  process_command_buffer_packets,
}

abbrev processor : CommandProcessor
processor = record { regs = default_regs; submit_count = 0 }

abbrev packets : List Packet
packets =
    command num_instances 5 []
    ∷ filler
    ∷ command set_context_reg 0x10 (1 ∷ 2 ∷ [])
    ∷ command index_base 0x1000 (1 ∷ [])
    ∷ []

abbrev processed : CommandProcessor
processed = record {
  regs = record default_regs { num_instances = 5; index_base = 0x1_0000_1000 };
  submit_count = 1;
}

process_command_buffer_run : process_command_buffer processor (words_of packets) ≡ some processed
unfolding process_command_buffer process_from packet_step parse_pm4_header from_u32
    process_type3_packet write_regs write_context_reg
process_command_buffer_run = refl

process_command_buffer_packets_example :
    process_command_buffer processor (words_of packets)
    ≡ some (record { regs = execute_all packets default_regs; submit_count = add64 0 1 })
process_command_buffer_packets_example =
    process_command_buffer_packets processor packets (ground arith)

process_command_buffer_total_example :
    (self' : CommandProcessor) × (process_command_buffer processor (0xC000_2F00 ∷ []) ≡ some self')
    × (self'.submit_count ≡ (processor.submit_count + 1) % 2 ^ 64)
process_command_buffer_total_example = process_command_buffer_total processor (0xC000_2F00 ∷ [])

nop_run : from_u32 0x10 ≡ some nop
unfolding from_u32
nop_run = refl
