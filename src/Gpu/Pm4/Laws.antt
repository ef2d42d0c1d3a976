-- ===== src/Gpu/Pm4/Laws.antt =====
-- The opcode table and the packet header of crates/gpu/src/liverpool/pm4.rs.
use anotherps4_emulator.Common.{
  ℕ, ◌+◌, ◌*◌, ◌/◌, ◌^◌, ◌<◌, ◌≡◌, refl, List, [], ◌∷◌, some, ◌==◌, bit_and, All, arith, Bool-cases,
  inl, inr, ==_iff,
}
use anotherps4_emulator.Common.Bits.{bit_and_low}
use anotherps4_emulator.Gpu.Pm4.{
  Pm4Opcode, opcode_value, arms, match_arms, from_u32, type3, parse_pm4_header, nop, set_base,
  clear_state, index_buffer_size, dispatch_direct, dispatch_indirect, atomic_gds, occlusion_query,
  set_predication, reg_rmw, draw_indirect, draw_index_indirect, index_base, draw_index2,
  context_control, index_type, draw_index_auto, num_instances, draw_index_multi_auto,
  indirect_buffer_const, draw_index_offset2, write_data, mem_semaphore, wait_reg_mem,
  indirect_buffer, copy_data, pfp_sync_me, surface_sync, event_write, event_write_eop,
  event_write_eos, release_mem, dma_data, acquire_mem, load_sh_reg, load_context_reg,
  set_config_reg, set_context_reg, set_sh_reg, set_uconfig_reg, load_const_ram, write_const_ram,
  dump_const_ram, increment_ce_counter, increment_de_counter, wait_on_ce_counter,
  wait_on_de_counter_diff,
}

-- Every opcode is found again from its discriminant.
pub from_u32-opcode_value : (opcode : Pm4Opcode) → from_u32 (opcode_value opcode) ≡ some opcode
unfolding from_u32
from_u32-opcode_value nop = refl
from_u32-opcode_value set_base = refl
from_u32-opcode_value clear_state = refl
from_u32-opcode_value index_buffer_size = refl
from_u32-opcode_value dispatch_direct = refl
from_u32-opcode_value dispatch_indirect = refl
from_u32-opcode_value atomic_gds = refl
from_u32-opcode_value occlusion_query = refl
from_u32-opcode_value set_predication = refl
from_u32-opcode_value reg_rmw = refl
from_u32-opcode_value draw_indirect = refl
from_u32-opcode_value draw_index_indirect = refl
from_u32-opcode_value index_base = refl
from_u32-opcode_value draw_index2 = refl
from_u32-opcode_value context_control = refl
from_u32-opcode_value index_type = refl
from_u32-opcode_value draw_index_auto = refl
from_u32-opcode_value num_instances = refl
from_u32-opcode_value draw_index_multi_auto = refl
from_u32-opcode_value indirect_buffer_const = refl
from_u32-opcode_value draw_index_offset2 = refl
from_u32-opcode_value write_data = refl
from_u32-opcode_value mem_semaphore = refl
from_u32-opcode_value wait_reg_mem = refl
from_u32-opcode_value indirect_buffer = refl
from_u32-opcode_value copy_data = refl
from_u32-opcode_value pfp_sync_me = refl
from_u32-opcode_value surface_sync = refl
from_u32-opcode_value event_write = refl
from_u32-opcode_value event_write_eop = refl
from_u32-opcode_value event_write_eos = refl
from_u32-opcode_value release_mem = refl
from_u32-opcode_value dma_data = refl
from_u32-opcode_value acquire_mem = refl
from_u32-opcode_value load_sh_reg = refl
from_u32-opcode_value load_context_reg = refl
from_u32-opcode_value set_config_reg = refl
from_u32-opcode_value set_context_reg = refl
from_u32-opcode_value set_sh_reg = refl
from_u32-opcode_value set_uconfig_reg = refl
from_u32-opcode_value load_const_ram = refl
from_u32-opcode_value write_const_ram = refl
from_u32-opcode_value dump_const_ram = refl
from_u32-opcode_value increment_ce_counter = refl
from_u32-opcode_value increment_de_counter = refl
from_u32-opcode_value wait_on_ce_counter = refl
from_u32-opcode_value wait_on_de_counter_diff = refl

match_arms_sound :
    (l : List (ℕ × Pm4Opcode)) (value : ℕ) (opcode : Pm4Opcode)
    → All (λ (arm : ℕ × Pm4Opcode). opcode_value arm.1 ≡ arm.0) l
    → match_arms l value ≡ some opcode
    → opcode_value opcode ≡ value
match_arms_sound [] value opcode a h = absurd (cc)
match_arms_sound ((v, found) ∷ l) value opcode a h = elim (Bool-cases (v == value)) [
  | inl e ↦
      let s : some found ≡ some opcode = rw e at h in
      let o : found ≡ opcode = cc in rw (← o, a.0) ((==_iff v value).0 e)
  | inr e ↦ match_arms_sound l value opcode a.1 (rw e at h)
]

-- A value that from_u32 accepts is the discriminant of the opcode that it returns.
pub from_u32_sound :
    (value : ℕ) (opcode : Pm4Opcode) → from_u32 value ≡ some opcode → opcode_value opcode ≡ value
unfolding from_u32
from_u32_sound value opcode h = match_arms_sound arms value opcode (omega arith) h

-- The header word of a command with `count + 1` words behind it.
abbrev pub command_header : Pm4Opcode → ℕ → ℕ
command_header opcode count = 3 * 2 ^ 30 + count * 2 ^ 16 + opcode_value opcode * 2 ^ 8

opcode_value-lt : (opcode : Pm4Opcode) → opcode_value opcode < 256
opcode_value-lt nop = omega arith
opcode_value-lt set_base = omega arith
opcode_value-lt clear_state = omega arith
opcode_value-lt index_buffer_size = omega arith
opcode_value-lt dispatch_direct = omega arith
opcode_value-lt dispatch_indirect = omega arith
opcode_value-lt atomic_gds = omega arith
opcode_value-lt occlusion_query = omega arith
opcode_value-lt set_predication = omega arith
opcode_value-lt reg_rmw = omega arith
opcode_value-lt draw_indirect = omega arith
opcode_value-lt draw_index_indirect = omega arith
opcode_value-lt index_base = omega arith
opcode_value-lt draw_index2 = omega arith
opcode_value-lt context_control = omega arith
opcode_value-lt index_type = omega arith
opcode_value-lt draw_index_auto = omega arith
opcode_value-lt num_instances = omega arith
opcode_value-lt draw_index_multi_auto = omega arith
opcode_value-lt indirect_buffer_const = omega arith
opcode_value-lt draw_index_offset2 = omega arith
opcode_value-lt write_data = omega arith
opcode_value-lt mem_semaphore = omega arith
opcode_value-lt wait_reg_mem = omega arith
opcode_value-lt indirect_buffer = omega arith
opcode_value-lt copy_data = omega arith
opcode_value-lt pfp_sync_me = omega arith
opcode_value-lt surface_sync = omega arith
opcode_value-lt event_write = omega arith
opcode_value-lt event_write_eop = omega arith
opcode_value-lt event_write_eos = omega arith
opcode_value-lt release_mem = omega arith
opcode_value-lt dma_data = omega arith
opcode_value-lt acquire_mem = omega arith
opcode_value-lt load_sh_reg = omega arith
opcode_value-lt load_context_reg = omega arith
opcode_value-lt set_config_reg = omega arith
opcode_value-lt set_context_reg = omega arith
opcode_value-lt set_sh_reg = omega arith
opcode_value-lt set_uconfig_reg = omega arith
opcode_value-lt load_const_ram = omega arith
opcode_value-lt write_const_ram = omega arith
opcode_value-lt dump_const_ram = omega arith
opcode_value-lt increment_ce_counter = omega arith
opcode_value-lt increment_de_counter = omega arith
opcode_value-lt wait_on_ce_counter = omega arith
opcode_value-lt wait_on_de_counter_diff = omega arith

-- Parsing the header word that encodes an opcode and a count below 2 ^ 14 gives back a type 3 header
-- with this opcode and this count.
pub parse-command_header :
    (opcode : Pm4Opcode) (count : ℕ)
    → count < 2 ^ 14
    → parse_pm4_header (command_header opcode count)
      ≡ record { packet_type = type3; count = count; opcode = some opcode }
unfolding parse_pm4_header
parse-command_header opcode count h =
    let w = command_header opcode count in
    let lt = opcode_value-lt opcode in
    let t : bit_and (w / 2 ^ 30) 0x3 ≡ 3 = omega (arith, bit_and_low 2 (w / 2 ^ 30)) in
    let c : bit_and (w / 2 ^ 16) 0x3fff ≡ count = omega (arith, bit_and_low 14 (w / 2 ^ 16)) in
    let o : bit_and (w / 2 ^ 8) 0xff ≡ opcode_value opcode =
      omega (arith, bit_and_low 8 (w / 2 ^ 8)) in
    rw (t, c, o, from_u32-opcode_value opcode)
