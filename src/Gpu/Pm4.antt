-- ===== src/Gpu/Pm4.antt =====
-- crates/gpu/src/liverpool/pm4.rs: opcodes and packet headers. A `u32` is a native number below 2 ^ 32.
pub mod Laws
use anotherps4_emulator.Common.{
  ℕ, ◌+◌, ◌*◌, ◌/◌, ◌^◌, List, [], ◌∷◌, Option, none, some, ◌==◌, if◌then◌else◌, bit_and,
}

pub data Pm4Opcode : Type 0 where
  nop set_base clear_state index_buffer_size dispatch_direct dispatch_indirect atomic_gds :
      Pm4Opcode
  occlusion_query set_predication reg_rmw draw_indirect draw_index_indirect index_base : Pm4Opcode
  draw_index2 context_control index_type draw_index_auto num_instances draw_index_multi_auto :
      Pm4Opcode
  indirect_buffer_const draw_index_offset2 write_data mem_semaphore wait_reg_mem : Pm4Opcode
  indirect_buffer copy_data pfp_sync_me surface_sync event_write event_write_eop : Pm4Opcode
  event_write_eos release_mem dma_data acquire_mem load_sh_reg load_context_reg set_config_reg :
      Pm4Opcode
  set_context_reg set_sh_reg set_uconfig_reg load_const_ram write_const_ram dump_const_ram :
      Pm4Opcode
  increment_ce_counter increment_de_counter wait_on_ce_counter wait_on_de_counter_diff : Pm4Opcode

-- The discriminants of the enum.
abbrev pub opcode_value : Pm4Opcode → ℕ
opcode_value nop = 0x10
opcode_value set_base = 0x11
opcode_value clear_state = 0x12
opcode_value index_buffer_size = 0x13
opcode_value dispatch_direct = 0x15
opcode_value dispatch_indirect = 0x16
opcode_value atomic_gds = 0x1d
opcode_value occlusion_query = 0x1f
opcode_value set_predication = 0x20
opcode_value reg_rmw = 0x21
opcode_value draw_indirect = 0x24
opcode_value draw_index_indirect = 0x25
opcode_value index_base = 0x26
opcode_value draw_index2 = 0x27
opcode_value context_control = 0x28
opcode_value index_type = 0x2a
opcode_value draw_index_auto = 0x2d
opcode_value num_instances = 0x2f
opcode_value draw_index_multi_auto = 0x30
opcode_value indirect_buffer_const = 0x33
opcode_value draw_index_offset2 = 0x35
opcode_value write_data = 0x37
opcode_value mem_semaphore = 0x39
opcode_value wait_reg_mem = 0x3c
opcode_value indirect_buffer = 0x3f
opcode_value copy_data = 0x40
opcode_value pfp_sync_me = 0x42
opcode_value surface_sync = 0x43
opcode_value event_write = 0x46
opcode_value event_write_eop = 0x47
opcode_value event_write_eos = 0x48
opcode_value release_mem = 0x49
opcode_value dma_data = 0x50
opcode_value acquire_mem = 0x58
opcode_value load_sh_reg = 0x5f
opcode_value load_context_reg = 0x61
opcode_value set_config_reg = 0x68
opcode_value set_context_reg = 0x69
opcode_value set_sh_reg = 0x76
opcode_value set_uconfig_reg = 0x79
opcode_value load_const_ram = 0x80
opcode_value write_const_ram = 0x81
opcode_value dump_const_ram = 0x83
opcode_value increment_ce_counter = 0x84
opcode_value increment_de_counter = 0x85
opcode_value wait_on_ce_counter = 0x86
opcode_value wait_on_de_counter_diff = 0x88

-- The arms of the `match` in `from_u32`, in order.
abbrev pub arms : List (ℕ × Pm4Opcode)
arms =
    (0x10, nop)
    ∷ (0x11, set_base)
    ∷ (0x12, clear_state)
    ∷ (0x13, index_buffer_size)
    ∷ (0x15, dispatch_direct)
    ∷ (0x16, dispatch_indirect)
    ∷ (0x1d, atomic_gds)
    ∷ (0x1f, occlusion_query)
    ∷ (0x20, set_predication)
    ∷ (0x21, reg_rmw)
    ∷ (0x24, draw_indirect)
    ∷ (0x25, draw_index_indirect)
    ∷ (0x26, index_base)
    ∷ (0x27, draw_index2)
    ∷ (0x28, context_control)
    ∷ (0x2a, index_type)
    ∷ (0x2d, draw_index_auto)
    ∷ (0x2f, num_instances)
    ∷ (0x30, draw_index_multi_auto)
    ∷ (0x33, indirect_buffer_const)
    ∷ (0x35, draw_index_offset2)
    ∷ (0x37, write_data)
    ∷ (0x39, mem_semaphore)
    ∷ (0x3c, wait_reg_mem)
    ∷ (0x3f, indirect_buffer)
    ∷ (0x40, copy_data)
    ∷ (0x42, pfp_sync_me)
    ∷ (0x43, surface_sync)
    ∷ (0x46, event_write)
    ∷ (0x47, event_write_eop)
    ∷ (0x48, event_write_eos)
    ∷ (0x49, release_mem)
    ∷ (0x50, dma_data)
    ∷ (0x58, acquire_mem)
    ∷ (0x5f, load_sh_reg)
    ∷ (0x61, load_context_reg)
    ∷ (0x68, set_config_reg)
    ∷ (0x69, set_context_reg)
    ∷ (0x76, set_sh_reg)
    ∷ (0x79, set_uconfig_reg)
    ∷ (0x80, load_const_ram)
    ∷ (0x81, write_const_ram)
    ∷ (0x83, dump_const_ram)
    ∷ (0x84, increment_ce_counter)
    ∷ (0x85, increment_de_counter)
    ∷ (0x86, wait_on_ce_counter)
    ∷ (0x88, wait_on_de_counter_diff)
    ∷ []

abbrev pub match_arms : List (ℕ × Pm4Opcode) → ℕ → Option Pm4Opcode
match_arms [] value = none
match_arms ((v, opcode) ∷ rest) value = if v == value then some opcode else match_arms rest value

-- `Pm4Opcode::from_u32`
unfoldable pub from_u32 : ℕ → Option Pm4Opcode
from_u32 = match_arms arms

pub data Pm4Type : Type 0 where
  type0 type2 type3 : Pm4Type

pub record Pm4Header : Type 0 where
  pub packet_type : Pm4Type
  pub count : ℕ
  pub opcode : Option Pm4Opcode

-- The `match` on the two topmost bits; the unknown type 1 is taken for a filler.
abbrev pub packet_type_of : ℕ → Pm4Type
packet_type_of bits =
    if bits == 0 then type0 else if bits == 2 then type2 else if bits == 3 then type3 else type2

abbrev pub opcode_of : Pm4Type → ℕ → Option Pm4Opcode
opcode_of type3 header = from_u32 (bit_and (header / 2 ^ 8) 0xff)
opcode_of type0 header = none
opcode_of type2 header = none

unfoldable pub parse_pm4_header : ℕ → Pm4Header
parse_pm4_header header =
    let packet_type = packet_type_of (bit_and (header / 2 ^ 30) 0x3) in
    record {
      packet_type = packet_type;
      count = bit_and (header / 2 ^ 16) 0x3fff;
      opcode = opcode_of packet_type header;
    }
