-- ===== src/Arbiter/Issue/Select.antt =====
-- `IssueArbiter::decodeOp` and `IssueArbiter::build` of src/StaticArbiter/StaticArbiter.cpp.
use rv32im_simulator.Prelude.{
  ℕ, Bool, true, false, ◌||◌, ◌==◌, if◌then◌else◌, Option, some, bit_or, ◌<<<◌,
}
use rv32im_simulator.Types.{
  Operation, op_invalid, add, sub, op_and, op_or, op_xor, sl, srl, sra, slt, sltu, auipc, lui, eq,
  ge, geu, lt, ltu, ne, load, store, jalr, mul, mulh, mulhu, mulhsu, div, divu, rem, remu,
}
use rv32im_simulator.Packet.{IssuePacket, register_type}
use rv32im_simulator.Decoder.{Uop, RiscV, r, m, i, i_star, s, b, u, j, rv_invalid}
use rv32im_simulator.Decoder.Queue.{is_empty, head_uop}
use rv32im_simulator.Rob.{default_entry}
use rv32im_simulator.Div.{is_divide_op}
use rv32im_simulator.Arbiter.Issue.{
  IssueInput, idle, issue_integer_rs, issue_multiply, issue_divide, issue_u_and_j, issue_b,
  issue_load, issue_store,
}

-- `link_funct`, `funct3` above `funct7`.
unfoldable register_op : ℕ → Operation
register_op link =
    if link == 0b0000000000
    then add
    else if link == 0b0000100000
    then sub
    else if link == 0b0010000000
    then sl
    else if link == 0b0100000000
    then slt
    else if link == 0b0110000000
    then sltu
    else if link == 0b1000000000
    then op_xor
    else if link == 0b1010000000
    then srl
    else if link == 0b1010100000
    then sra
    else if link == 0b1100000000
    then op_or
    else if link == 0b1110000000
    then op_and
    else op_invalid

unfoldable multiply_op : ℕ → Operation
multiply_op funct3 =
    if funct3 == 0
    then mul
    else if funct3 == 1
    then mulh
    else if funct3 == 2
    then mulhsu
    else if funct3 == 3
    then mulhu
    else if funct3 == 4
    then div
    else if funct3 == 5
    then divu
    else if funct3 == 6
    then rem
    else if funct3 == 7
    then remu
    else op_invalid

unfoldable immediate_op : ℕ → Operation
immediate_op funct3 =
    if funct3 == 0
    then add
    else if funct3 == 2
    then slt
    else if funct3 == 3
    then sltu
    else if funct3 == 4
    then op_xor
    else if funct3 == 6
    then op_or
    else if funct3 == 7
    then op_and
    else op_invalid

unfoldable branch_op : ℕ → Operation
branch_op funct3 =
    if funct3 == 0
    then eq
    else if funct3 == 1
    then ne
    else if funct3 == 4
    then lt
    else if funct3 == 5
    then ge
    else if funct3 == 6
    then ltu
    else if funct3 == 7
    then geu
    else op_invalid

unfoldable pub decode_op : Uop → Operation
unfolding register_op multiply_op immediate_op branch_op
decode_op inst = elim inst.format [
  | r ↦ register_op (bit_or (inst.funct3 <<< 7) inst.funct7)
  | m ↦ multiply_op inst.funct3
  | i ↦
      if inst.opcode == 0b0000011
      then load
      else if inst.opcode == 0b1100111
      then jalr
      else immediate_op inst.funct3
  | i_star ↦
      if inst.funct3 == 1
      then sl
      else if inst.funct3 == 5
      then (if inst.funct7 == 0 then srl else sra)
      else op_invalid
  | s ↦ store
  | b ↦ branch_op inst.funct3
  | u ↦
      if inst.opcode == 0b0010111
      then auipc
      else if inst.opcode == 0b0110111
      then lui
      else op_invalid
  | j ↦ jalr
  | rv_invalid ↦ op_invalid
]

-- The halt entry is ready to commit from the start, and is built without a look at the buffer's room.
unfoldable pub issue_halt : IssueInput → Uop → IssuePacket
issue_halt input inst = record idle {
  valid = true;
  is_halt = true;
  rob_tag = input.rob.next_tag;
  rob_entry = record default_entry {
    entry_type = register_type;
    dest = inst.rd;
    ckpt_id = inst.ckpt_id;
    halt = true;
    is_commit_ready = true;
  };
}

-- The size of a load or a store in bytes; the codes without one keep 4.
unfoldable pub bytes_of : ℕ → ℕ
bytes_of funct3 =
    if (funct3 == 0) || (funct3 == 4) then 1 else if (funct3 == 1) || (funct3 == 5) then 2 else 4

unfoldable pub store_bytes_of : ℕ → ℕ
store_bytes_of funct3 = if funct3 == 0 then 1 else if funct3 == 1 then 2 else 4

abbrev is_op_invalid : Operation → Bool
is_op_invalid op_invalid = true
is_op_invalid _ = false

unfoldable pub issue_m : IssueInput → Uop → Option IssuePacket
issue_m input inst =
    let op = decode_op inst in
    if is_op_invalid op
    then some idle
    else if is_divide_op op
    then issue_divide input inst op
    else issue_multiply input inst op

unfoldable pub issue_i : IssueInput → Uop → Option IssuePacket
issue_i input inst =
    let op = decode_op inst in
    if inst.opcode == 0b0010011
    then (if inst.is_halt
        then some (issue_halt input inst)
        else issue_integer_rs input inst op false true false)
    else if inst.opcode == 0b1100111
    then issue_integer_rs input inst op false true true
    else if inst.opcode == 0b0000011
    then issue_load input inst op (bytes_of inst.funct3) ((inst.funct3 == 4) || (inst.funct3 == 5))
    else some idle

unfoldable pub issue_u : IssueInput → Uop → Option IssuePacket
issue_u input inst =
    if inst.opcode == 0b0010111
    then issue_u_and_j input inst (decode_op inst) true false
    else if inst.opcode == 0b0110111
    then issue_u_and_j input inst (decode_op inst) false false
    else some idle

-- The switch over the format.
unfoldable pub issue_format : RiscV → IssueInput → Uop → Option IssuePacket
issue_format r input inst = issue_integer_rs input inst (decode_op inst) true false false
issue_format m input inst = issue_m input inst
issue_format i input inst = issue_i input inst
issue_format i_star input inst = issue_integer_rs input inst (decode_op inst) false true false
issue_format s input inst = issue_store input inst (decode_op inst) (store_bytes_of inst.funct3)
issue_format b input inst = issue_b input inst (decode_op inst)
issue_format u input inst = issue_u input inst
issue_format j input inst = issue_u_and_j input inst (decode_op inst) true true
issue_format rv_invalid input inst = some (record idle { valid = true })

unfoldable pub build : IssueInput → Option IssuePacket
build input =
    let inst = head_uop input.decode_unit in
    if input.squash.need_squash || is_empty input.decode_unit
    then some idle
    else issue_format inst.format input inst
