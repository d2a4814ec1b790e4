-- ===== src/Arbiter/Issue.antt =====
-- `IssueArbiter` of src/StaticArbiter/StaticArbiter.cpp: what the head of the decode unit becomes when
-- it is issued. The tables of instructions are in `Issue.Select`.
pub mod Select
pub mod Room
pub mod Build
pub mod Halt
pub mod Total
use mathlib.Core.Option
use rv32im_simulator.Prelude.{
  ℕ, Bool, true, false, not, ◌&&◌, ◌||◌, ◌==◌, if◌then◌else◌, Option, none, some, bit_or, u8,
}
use rv32im_simulator.Types.{Operation, Operand, SquashInfo, invalid_phy}
use rv32im_simulator.Packet.{
  IssuePacket, RobEntry, RobType, register_type, branch_type, store_type, link_type,
}
use rv32im_simulator.Decoder.{Uop}
use rv32im_simulator.Decoder.Queue.{UopQueue}
use rv32im_simulator.Rob
use rv32im_simulator.Rob.{Rob, default_entry}
use rv32im_simulator.Rs.{
  Station, RsUnit, StoreValueStation, empty_station, empty_address_station, empty_branch_station,
  no_operand,
}
use rv32im_simulator.Rs.Tick.{
  try_alloc_integer, try_alloc_multiply, try_alloc_divide, try_alloc_load, try_alloc_store_address,
  try_alloc_store_value, try_alloc_branch,
}
use rv32im_simulator.Rat.{Rat, read_operand, read_rat_prf}
use rv32im_simulator.Prf.{Prf, is_free_list_empty, get_free_list_slot}
use rv32im_simulator.Lq
use rv32im_simulator.Lq.{Lq}
use rv32im_simulator.Sq
use rv32im_simulator.Sq.{Sq}

-- `struct IssueArbiterInput`.
pub record IssueInput : Type 0 where
  pub decode_unit : UopQueue
  pub rob : Rob
  pub rs : RsUnit
  pub rat : Rat
  pub prf : Prf
  pub lq : Lq
  pub sq : Sq
  pub squash : SquashInfo

abbrev empty_store_value : StoreValueStation
empty_store_value = record { free = true; store_data = no_operand; rob_tag = 0xff; mem_index = 0 }

-- `IssuePacket{}`: nothing is issued. Its slots of -1 are not read.
abbrev pub idle : IssuePacket
idle = record {
  valid = false;
  alloc_dest = false;
  phy = invalid_phy;
  rob_tag = 0;
  rob_entry = default_entry;
  has_integer = false;
  integer_slot = 0;
  integer_rs = empty_station;
  has_multiply = false;
  multiply_slot = 0;
  multiply_rs = empty_station;
  has_divide = false;
  divide_slot = 0;
  divide_rs = empty_station;
  has_load = false;
  load_slot = 0;
  load_rs = empty_address_station;
  has_store = false;
  store_addr_slot = 0;
  store_value_slot = 0;
  store_addr_rs = empty_address_station;
  store_value_rs = empty_store_value;
  has_branch = false;
  branch_slot = 0;
  branch_rs = empty_branch_station;
  is_load = false;
  is_store = false;
  is_control = false;
  is_halt = false;
  n_bytes = 0;
  is_unsigned = false;
  pc = 0;
}

abbrev pub constant : ℕ → Operand
constant value = record { tag = invalid_phy; imm = value }

-- `none` is the failed assertion on a register without a mapping.
unfoldable pub resolve_src : IssueInput → ℕ → Option Operand
resolve_src input reg =
    let op = read_operand input.rat reg in
    if op.ready
    then some (constant op.value)
    else if op.phy_reg_index == invalid_phy
    then none
    else some (record { tag = op.phy_reg_index; imm = 0 })

-- The early returns that the functions share: no place in a queue, no station, no register.
unfoldable pub guarded : Bool → Option ℕ → Bool → (ℕ → Option IssuePacket) → Option IssuePacket
guarded full slot starved build =
    if full
    then some idle
    else elim slot [ none ↦ some idle | some index ↦ if starved then some idle else build index ]

abbrev pub starved : IssueInput → Uop → Bool
starved input inst = inst.alloc_dest && is_free_list_empty input.prf

-- Both operands or the failed assertion of one.
unfoldable pub with_sources :
    Option Operand → Option Operand → (Operand → Operand → IssuePacket) → Option IssuePacket
with_sources first second build = elim first [
  | none ↦ none
  | some a ↦ Option.map (λ b. build a b) second
]

-- The fields of the reorder buffer's entry that every kind of instruction sets.
abbrev common_entry : IssueInput → Uop → RobType → RobEntry
common_entry input inst kind = record default_entry {
  entry_type = kind;
  pc = inst.pc;
  predicted_pc = inst.predicted_pc;
  lq_tail_snapshot = input.lq.tail;
  sq_tail_snapshot = input.sq.tail;
  ckpt_id = inst.ckpt_id;
}

-- The packet of an instruction with a destination, before its station is filled in.
unfoldable pub renamed : IssueInput → Uop → IssuePacket
renamed input inst =
    let renames = inst.alloc_dest && not (is_free_list_empty input.prf) in
    let phy = if renames then get_free_list_slot input.prf input.prf.head_seq else invalid_phy in
    record idle {
      valid = true;
      alloc_dest = renames;
      phy = phy;
      rob_tag = input.rob.next_tag;
      rob_entry = record (common_entry input inst register_type) {
        dest = inst.rd;
        old_phy = if inst.alloc_dest then read_rat_prf input.rat inst.rd else invalid_phy;
        new_phy = phy;
      };
    }

-- A taken station.
abbrev station_of : IssueInput → Operation → Operand → Operand → Station
station_of input op src1 src2 = record {
  op = op;
  free = false;
  src1 = src1;
  src2 = src2;
  rob_tag = input.rob.next_tag;
}

-- `JALR`: a link entry with a target from a register; `JALR x0, 0(x1)` is a return.
unfoldable pub indirect_link : Uop → IssuePacket → IssuePacket
indirect_link inst p =
    let entry = p.rob_entry in
    record p {
      is_control = true;
      pc = inst.pc;
      rob_entry = record entry {
        entry_type = link_type;
        is_indirect = true;
        is_ret = (inst.rd == 0) && (inst.rs1 == 1) && (inst.imm == 0);
      };
    }

-- `JAL`: a link entry; with the return address register it is a call.
unfoldable pub direct_link : Uop → IssuePacket → IssuePacket
direct_link inst p =
    let entry = p.rob_entry in
    record p {
      is_control = true;
      pc = inst.pc;
      rob_entry = record entry { entry_type = link_type; is_call = inst.rd == 1 };
    }

-- The operation `op` of the functions below is `decodeOp(inst)`.
unfoldable pub issue_integer_rs :
    IssueInput → Uop → Operation → (has_rs2 imm_as_vk is_control : Bool) → Option IssuePacket
issue_integer_rs input inst op has_rs2 imm_as_vk is_control =
    guarded (Rob.is_full input.rob) (try_alloc_integer input.rs) (starved input inst) λ slot.
      with_sources (resolve_src input inst.rs1)
        (if imm_as_vk
          then some (constant inst.imm)
          else if has_rs2
          then resolve_src input inst.rs2
          else some no_operand)
        λ src1 src2.
          let p = record (renamed input inst) {
            has_integer = true;
            integer_slot = slot;
            integer_rs = station_of input op src1 src2;
          } in
          if is_control then indirect_link inst p else p

unfoldable pub issue_multiply : IssueInput → Uop → Operation → Option IssuePacket
issue_multiply input inst op =
    guarded (Rob.is_full input.rob) (try_alloc_multiply input.rs) (starved input inst) λ slot.
      with_sources (resolve_src input inst.rs1) (resolve_src input inst.rs2) λ src1 src2.
        record (renamed input inst) {
          has_multiply = true;
          multiply_slot = slot;
          multiply_rs = station_of input op src1 src2;
        }

unfoldable pub issue_divide : IssueInput → Uop → Operation → Option IssuePacket
issue_divide input inst op =
    guarded (Rob.is_full input.rob) (try_alloc_divide input.rs) (starved input inst) λ slot.
      with_sources (resolve_src input inst.rs1) (resolve_src input inst.rs2) λ src1 src2.
        record (renamed input inst) {
          has_divide = true;
          divide_slot = slot;
          divide_rs = station_of input op src1 src2;
        }

unfoldable pub issue_u_and_j :
    IssueInput → Uop → Operation → (has_pc is_control : Bool) → Option IssuePacket
issue_u_and_j input inst op has_pc is_control =
    guarded (Rob.is_full input.rob) (try_alloc_integer input.rs) (starved input inst) λ slot.
      let p = record (renamed input inst) {
        has_integer = true;
        integer_slot = slot;
        integer_rs =
            station_of input op (if has_pc then constant inst.pc else no_operand)
              (constant inst.imm);
      } in
      some (if is_control then direct_link inst p else p)

unfoldable pub issue_b : IssueInput → Uop → Operation → Option IssuePacket
issue_b input inst op = guarded (Rob.is_full input.rob) (try_alloc_branch input.rs) false λ slot.
    with_sources (resolve_src input inst.rs1) (resolve_src input inst.rs2) λ src1 src2.
      record idle {
        valid = true;
        rob_tag = input.rob.next_tag;
        rob_entry = common_entry input inst branch_type;
        has_branch = true;
        branch_slot = slot;
        branch_rs = record {
          station = station_of input op src1 src2;
          imm = inst.imm;
          pc = inst.pc;
        };
      }

-- The snapshot of the load queue's tail includes the load itself.
unfoldable pub issue_load : IssueInput → Uop → Operation → ℕ → Bool → Option IssuePacket
issue_load input inst op n_bytes is_unsigned =
    guarded (Rob.is_full input.rob || Lq.is_full input.lq) (try_alloc_load input.rs)
      (starved input inst)
      λ slot. with_sources (resolve_src input inst.rs1) (some (constant inst.imm)) λ src1 src2.
        let p = renamed input inst in
        let entry = p.rob_entry in
        record p {
          rob_entry = record entry { lq_tail_snapshot = Lq.get_tail_snapshot input.lq };
          has_load = true;
          is_load = true;
          load_slot = slot;
          load_rs = record { station = station_of input op src1 src2; mem_index = input.lq.tail };
          n_bytes = n_bytes;
          is_unsigned = is_unsigned;
        }

-- A store takes two stations; the source asks for both before it tests either.
unfoldable pub issue_store : IssueInput → Uop → Operation → ℕ → Option IssuePacket
issue_store input inst op n_bytes =
    guarded (Rob.is_full input.rob || Sq.is_full input.sq) (try_alloc_store_address input.rs) false
      λ addr_slot. guarded false (try_alloc_store_value input.rs) false λ value_slot.
        with_sources (resolve_src input inst.rs1) (resolve_src input inst.rs2) λ src1 src2.
          let index = u8 (bit_or input.sq.tail 0x40) in
          let entry = common_entry input inst store_type in
          record idle {
            valid = true;
            rob_tag = input.rob.next_tag;
            rob_entry = record entry { sq_tail_snapshot = Sq.get_tail_snapshot input.sq };
            has_store = true;
            is_store = true;
            store_addr_slot = addr_slot;
            store_value_slot = value_slot;
            store_addr_rs = record {
              station = station_of input op src1 (constant inst.imm);
              mem_index = index;
            };
            store_value_rs = record {
              free = false;
              store_data = src2;
              rob_tag = input.rob.next_tag;
              mem_index = index;
            };
            n_bytes = n_bytes;
          }
