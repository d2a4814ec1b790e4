-- ===== src/Alu.antt =====
-- The integer unit of src/include/ALU.hpp and src/ALU/ALU.cpp.
pub mod Signed
use rv32im_simulator.Prelude.{
  ℕ, ◌-◌, ◌^◌, Bool, false, if◌then◌else◌, Option, none, some, low_bits, u32, add32, sub32, slt32,
  sra32, ◌>>>◌, ◌<<<◌, ltb, bit_and, bit_or, bit_xor, get_or,
}
use rv32im_simulator.Types.{
  Operation, add, auipc, sub, op_xor, op_or, op_and, sl, srl, sra, slt, sltu, lui, is_control_op,
  SquashInfo, DispatchInfo,
}
use rv32im_simulator.Buffer
use rv32im_simulator.Buffer.{Buffer, Tagged}
use rv32im_simulator.Prf.{Prf, get_operand_value}
use rv32im_simulator.Rs.{RsUnit, empty_station}

-- `ArithmeticCalculateResult`.
pub record AluResult : Type 0 where
  pub value : ℕ
  pub rob_tag : ℕ
  pub is_control : Bool

instance abbrev pub alu_tagged : Tagged AluResult
alu_tagged = record { rob_tag = λ result. result.rob_tag }

abbrev pub Alu : Type 0
Alu = Buffer AluResult

-- The switch of `ALU::push`; the control operation adds, too.
unfoldable pub calculate : Operation → ℕ → ℕ → ℕ
calculate Operation.jalr op1 op2 = add32 op1 op2
calculate add op1 op2 = add32 op1 op2
calculate auipc op1 op2 = add32 op1 op2
calculate sub op1 op2 = sub32 op1 op2
calculate op_xor op1 op2 = bit_xor op1 op2
calculate op_or op1 op2 = bit_or op1 op2
calculate op_and op1 op2 = bit_and op1 op2
calculate sl op1 op2 = u32 (op1 <<< low_bits 5 op2)
calculate srl op1 op2 = op1 >>> low_bits 5 op2
calculate sra op1 op2 = sra32 op1 (low_bits 5 op2)
calculate slt op1 op2 = if slt32 op1 op2 then 1 else 0
calculate sltu op1 op2 = if ltb op1 op2 then 1 else 0
calculate lui op1 op2 = op2
calculate _ op1 op2 = 0

unfoldable pub push : ℕ → ℕ → Operation → ℕ → Bool → Alu → Alu
push op1 op2 op tag control =
    Buffer.push (record { value = calculate op op1 op2; rob_tag = tag; is_control = control })

unfoldable pub head_value : Alu → ℕ
head_value alu = elim (Buffer.oldest alu) [ none ↦ 0 | some best ↦ best.value ]

unfoldable pub head_rob_tag : Alu → ℕ
head_rob_tag alu = elim (Buffer.oldest alu) [ none ↦ 0 | some best ↦ best.rob_tag ]

unfoldable pub head_is_control : Alu → Bool
head_is_control alu = elim (Buffer.oldest alu) [ none ↦ false | some best ↦ best.is_control ]

unfoldable pub is_full : Alu → Bool
is_full alu = Buffer.is_full alu

unfoldable pub is_empty : Alu → Bool
is_empty alu = Buffer.is_empty alu

unfoldable pub remove : ℕ → Alu → Alu
remove tag = Buffer.remove tag

unfoldable pub flush : ℕ → Alu → Alu
flush tag = Buffer.flush tag

-- `struct ALUInput`: the snapshot of the other modules, with `cdb_valid` and `cdb_tag` for the unit's
-- own result bus.
pub record AluInput : Type 0 where
  pub squash : SquashInfo
  pub rs : RsUnit
  pub prf : Prf
  pub cdb_valid : Bool
  pub cdb_tag : ℕ
  pub dispatch : DispatchInfo

-- The three guarded steps of `ALU::tick`, on the next state.
unfoldable pub accept : AluInput → Alu → Alu
accept input alu =
    let rs = get_or input.rs.integer_rs input.dispatch.rs_index empty_station in
    if input.dispatch.valid
    then push (get_operand_value input.prf rs.src1) (get_operand_value input.prf rs.src2) rs.op
        input.dispatch.rob_tag (is_control_op rs.op) alu
    else alu

unfoldable pub tick : AluInput → Alu → Alu
unfolding accept
tick input alu =
    let accepted = accept input alu in
    let sent = if input.cdb_valid then remove input.cdb_tag accepted else accepted in
    if input.squash.need_squash then flush input.squash.squash_tag sent else sent
