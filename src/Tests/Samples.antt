-- ===== src/Tests/Samples.antt =====
-- States and inputs that the tests share.
use rv32im_simulator.Prelude.{ℕ, Bool, true, false, replicate}
use rv32im_simulator.Types.{SquashInfo}
use rv32im_simulator.Rs.{
  StoreValueStation, RsUnit, empty_station, empty_address_station, empty_branch_station, no_operand,
}
use rv32im_simulator.Packet.{IssuePacket, ResultBus, RobEntry}
use rv32im_simulator.Rob

abbrev pub quiet : SquashInfo
quiet = record { need_squash = false; squash_tag = 0; squash_pc = 0; ckpt_id = 0 }

abbrev pub squash_at : ℕ → ℕ → SquashInfo
squash_at tag ckpt = record { need_squash = true; squash_tag = tag; squash_pc = 64; ckpt_id = ckpt }

abbrev empty_value_station : StoreValueStation
empty_value_station = record { free = true; store_data = no_operand; rob_tag = 0xff; mem_index = 0 }

abbrev pub empty_unit : RsUnit
empty_unit = record {
  integer_rs = replicate 4 empty_station;
  multiply_rs = replicate 2 empty_station;
  divide_rs = replicate 1 empty_station;
  load_rs = replicate 4 empty_address_station;
  store_address_rs = replicate 4 empty_address_station;
  store_value_rs = replicate 4 empty_value_station;
  branch_rs = replicate 4 empty_branch_station;
}

abbrev pub silent_bus : ResultBus
silent_bus = record { value = 0; rob_tag = 0; is_control = false; mem_index = 0; valid = false }

-- An entry for a register instruction with its destination and checkpoint.
abbrev pub rob_entry_of : ℕ → ℕ → RobEntry
rob_entry_of dest ckpt = record Rob.default_entry { dest = dest; ckpt_id = ckpt }

-- A packet that renames `dest` to `phy`, or an idle one.
abbrev pub packet_of : Bool → ℕ → ℕ → ℕ → IssuePacket
packet_of valid dest phy ckpt = record {
  valid = valid;
  alloc_dest = true;
  phy = phy;
  rob_tag = 0;
  rob_entry = rob_entry_of dest ckpt;
  has_integer = false;
  integer_slot = 0;
  integer_rs = empty_station;
  has_multiply = false;
  multiply_slot = 0;
  multiply_rs = empty_station;
  has_divide = false;
  divide_slot = 0;
  divide_rs = empty_station;
  has_load = false;
  load_slot = 0;
  load_rs = empty_address_station;
  has_store = false;
  store_addr_slot = 0;
  store_value_slot = 0;
  store_addr_rs = empty_address_station;
  store_value_rs = empty_value_station;
  has_branch = false;
  branch_slot = 0;
  branch_rs = empty_branch_station;
  is_load = false;
  is_store = false;
  is_control = false;
  is_halt = false;
  n_bytes = 0;
  is_unsigned = false;
  pc = 0;
}
