-- ===== src/Types.antt =====
-- The shared data of src/include/common.hpp: operation codes, the squash broadcast, operands,
-- dispatch and memory requests. Every integer field is its bit pattern, a native number; an
-- index that the source initialises with -1 is an `Option`.
use rv32im_simulator.Prelude.{ℕ, ◌^◌, ◌/◌, ◌%◌, Bool, true, false, not, ◌==◌, low_bits}

-- `enum class Operation`.
pub data Operation : Type 0 where
  op_invalid add sub op_and op_or op_xor sl srl sra slt sltu auipc lui : Operation
  eq ge geu lt ltu ne load store jalr : Operation
  mul mulh mulhu mulhsu div divu rem remu : Operation

-- `enum class ValueState`.
pub data ValueState : Type 0 where
  not_ready fetching ready : ValueState

-- `isControlOp`.
abbrev pub is_control_op : Operation → Bool
is_control_op jalr = true
is_control_op _ = false

-- `struct SquashInfo`.
pub record SquashInfo : Type 0 where
  pub need_squash : Bool
  pub squash_tag : ℕ
  pub squash_pc : ℕ
  pub ckpt_id : ℕ

-- `struct Operand`: a physical register, or (tag `invalid_phy`) the constant `imm`.
pub record Operand : Type 0 where
  pub tag : ℕ
  pub imm : ℕ

abbrev pub invalid_phy : ℕ
invalid_phy = 0

-- `struct DispatchInfo`. `rs_index` is read only when `valid`.
pub record DispatchInfo : Type 0 where
  pub valid : Bool
  pub rs_index : ℕ
  pub rob_tag : ℕ

-- `enum class RSType`.
pub data RsType : Type 0 where
  integer multiply divide branch load_rs store_addr : RsType

-- `struct DispatchAGUInfo`.
pub record DispatchAguInfo : Type 0 where
  pub valid : Bool
  pub rs_index : ℕ
  pub rob_tag : ℕ
  pub rs_type : RsType

-- `struct MemRequest`.
pub record MemRequest : Type 0 where
  pub op : Operation
  pub value : ℕ
  pub address : ℕ
  pub is_signed : Bool
  pub n_bytes : ℕ
  pub rob_tag : ℕ
  pub mem_index : ℕ

-- `struct MemDispatchDecision`.
pub record MemDispatchDecision : Type 0 where
  pub valid : Bool
  pub request : MemRequest

-- `struct LoadResponse`.
pub record LoadResponse : Type 0 where
  pub valid : Bool
  pub mem_index : ℕ
  pub rob_tag : ℕ
  pub value : ℕ

-- `isStoreMem`: bit 6 of a memory index marks the store queue.
unfoldable pub is_store_mem : ℕ → Bool
is_store_mem index = not (index / 2 ^ 6 % 2 == 0)

-- `memSlot`: the queue index in the low six bits.
abbrev pub mem_slot : ℕ → ℕ
mem_slot index = low_bits 6 index
