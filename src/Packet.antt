-- ===== src/Packet.antt =====
-- What crosses module borders each cycle: the reorder buffer's entry (src/include/ROB.hpp), the
-- packet of the issued instruction (src/include/StaticArbiter.hpp) and the result buses
-- (src/include/CDB.hpp).
use rv32im_simulator.Prelude.{ℕ, Bool}
use rv32im_simulator.Rs.{Station, AddressStation, StoreValueStation, BranchStation}

-- `enum class ROBType`.
pub data RobType : Type 0 where
  register_type branch_type store_type link_type : RobType

-- `struct ROBEntry`.
pub record RobEntry : Type 0 where
  pub entry_type : RobType
  pub is_commit_ready : Bool
  pub tag : ℕ
  pub dest : ℕ
  pub predicted_pc : ℕ
  pub pc : ℕ
  pub halt : Bool
  pub is_call : Bool
  pub is_ret : Bool
  pub is_indirect : Bool
  pub lq_tail_snapshot : ℕ
  pub sq_tail_snapshot : ℕ
  pub ckpt_id : ℕ
  pub new_phy : ℕ
  pub old_phy : ℕ

-- `struct IssuePacket`. A slot is read only under its flag.
pub record IssuePacket : Type 0 where
  pub valid : Bool
  pub alloc_dest : Bool
  pub phy : ℕ
  pub rob_tag : ℕ
  pub rob_entry : RobEntry
  pub has_integer : Bool
  pub integer_slot : ℕ
  pub integer_rs : Station
  pub has_multiply : Bool
  pub multiply_slot : ℕ
  pub multiply_rs : Station
  pub has_divide : Bool
  pub divide_slot : ℕ
  pub divide_rs : Station
  pub has_load : Bool
  pub load_slot : ℕ
  pub load_rs : AddressStation
  pub has_store : Bool
  pub store_addr_slot : ℕ
  pub store_value_slot : ℕ
  pub store_addr_rs : AddressStation
  pub store_value_rs : StoreValueStation
  pub has_branch : Bool
  pub branch_slot : ℕ
  pub branch_rs : BranchStation
  pub is_load : Bool
  pub is_store : Bool
  pub is_control : Bool
  pub is_halt : Bool
  pub n_bytes : ℕ
  pub is_unsigned : Bool
  pub pc : ℕ

-- `aluCDB`, `mulCDB`, `divCDB` and `lqCDB` as the modules read them: `is_control` belongs to the first
-- and `mem_index` to the last, and both are zero on the other buses.
pub record ResultBus : Type 0 where
  pub value : ℕ
  pub rob_tag : ℕ
  pub is_control : Bool
  pub mem_index : ℕ
  pub valid : Bool
