-- ===== src/Bru.antt =====
-- The branch unit of src/include/BRU.hpp and src/BRU/BRU.cpp.
pub mod Branch
use rv32im_simulator.Prelude.{
  ℕ, Bool, false, not, ◌==◌, if◌then◌else◌, none, some, add32, slt32, ltb, get_or,
}
use rv32im_simulator.Types.{Operation, eq, ne, lt, ge, ltu, geu, SquashInfo, DispatchInfo}
use rv32im_simulator.Buffer
use rv32im_simulator.Buffer.{Buffer, Tagged}
use rv32im_simulator.Prf.{Prf, get_operand_value}
use rv32im_simulator.Rs.{RsUnit, empty_branch_station}

pub record BranchResult : Type 0 where
  pub pc_from : ℕ
  pub pc_result : ℕ
  pub rob_tag : ℕ

instance abbrev pub bru_tagged : Tagged BranchResult
bru_tagged = record { rob_tag = λ result. result.rob_tag }

abbrev pub Bru : Type 0
Bru = Buffer BranchResult

-- The switch of `BRU::BRUExecute`.
unfoldable pub taken : Operation → ℕ → ℕ → Bool
taken eq op1 op2 = op1 == op2
taken ne op1 op2 = not (op1 == op2)
taken lt op1 op2 = slt32 op1 op2
taken ge op1 op2 = not (slt32 op1 op2)
taken ltu op1 op2 = ltb op1 op2
taken geu op1 op2 = not (ltb op1 op2)
taken _ op1 op2 = false

unfoldable pub push : BranchResult → Bru → Bru
push result = Buffer.push result

unfoldable pub execute : ℕ → ℕ → ℕ → ℕ → Operation → ℕ → Bru → Bru
execute op1 op2 pc imm op tag = push (record {
  pc_from = pc;
  pc_result = if taken op op1 op2 then add32 pc imm else add32 pc 4;
  rob_tag = tag;
})

unfoldable pub head_pc_from : Bru → ℕ
head_pc_from bru = elim (Buffer.oldest bru) [ none ↦ 0 | some best ↦ best.pc_from ]

unfoldable pub head_pc_result : Bru → ℕ
head_pc_result bru = elim (Buffer.oldest bru) [ none ↦ 0 | some best ↦ best.pc_result ]

unfoldable pub head_rob_tag : Bru → ℕ
head_rob_tag bru = elim (Buffer.oldest bru) [ none ↦ 0 | some best ↦ best.rob_tag ]

unfoldable pub is_full : Bru → Bool
is_full bru = Buffer.is_full bru

unfoldable pub is_empty : Bru → Bool
is_empty bru = Buffer.is_empty bru

unfoldable pub remove : ℕ → Bru → Bru
remove tag = Buffer.remove tag

unfoldable pub flush : ℕ → Bru → Bru
flush tag = Buffer.flush tag

pub record BruInput : Type 0 where
  pub squash : SquashInfo
  pub rs : RsUnit
  pub prf : Prf
  pub dispatch : DispatchInfo

unfoldable pub accept : BruInput → Bru → Bru
accept input bru =
    let rs = get_or input.rs.branch_rs input.dispatch.rs_index empty_branch_station in
    if input.dispatch.valid
    then execute (get_operand_value input.prf rs.station.src1)
        (get_operand_value input.prf rs.station.src2) rs.pc rs.imm rs.station.op
        input.dispatch.rob_tag bru
    else bru

-- `BRU::tick`. The head that leaves is that of the state before the tick.
unfoldable pub tick : BruInput → Bru → Bru
unfolding accept
tick input bru =
    let accepted = accept input bru in
    let sent = if is_empty bru then accepted else remove (head_rob_tag bru) accepted in
    if input.squash.need_squash then flush input.squash.squash_tag sent else sent
