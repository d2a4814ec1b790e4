-- ===== src/Decoder/Encode.antt =====
-- The instructions of RV32IM as the RISC-V manual encodes them: the table of opcodes, and the place
-- of each field in the word. It is independent of src/Decoder/Decoder.cpp.
use rv32im_simulator.Prelude.{ℕ, ◌+◌, ◌*◌, ◌/◌, ◌%◌, ◌^◌, ◌<◌, ◌≡◌}
use rv32im_simulator.Types.{
  Operation, add, sub, op_and, op_or, op_xor, sl, srl, sra, slt, sltu, auipc, lui, eq, ge, geu, lt,
  ltu, ne, load, store, jalr, mul, mulh, mulhu, mulhsu, div, divu, rem, remu,
}
use rv32im_simulator.Decoder.{RiscV, r, m, i, i_star, s, b, u, j}

pub data Mnemonic : Type 0 where
  lui_word auipc_word jal_word jalr_word : Mnemonic
  beq_word bne_word blt_word bge_word bltu_word bgeu_word : Mnemonic
  lb_word lh_word lw_word lbu_word lhu_word sb_word sh_word sw_word : Mnemonic
  addi_word slti_word sltiu_word xori_word ori_word andi_word slli_word srli_word srai_word :
      Mnemonic
  add_word sub_word sll_word slt_word sltu_word xor_word srl_word sra_word or_word and_word :
      Mnemonic
  mul_word mulh_word mulhsu_word mulhu_word div_word divu_word rem_word remu_word : Mnemonic

-- The format.
abbrev pub format : Mnemonic → RiscV
format lui_word = u
format auipc_word = u
format jal_word = j
format jalr_word = i
format beq_word = b
format bne_word = b
format blt_word = b
format bge_word = b
format bltu_word = b
format bgeu_word = b
format lb_word = i
format lh_word = i
format lw_word = i
format lbu_word = i
format lhu_word = i
format sb_word = s
format sh_word = s
format sw_word = s
format addi_word = i
format slti_word = i
format sltiu_word = i
format xori_word = i
format ori_word = i
format andi_word = i
format slli_word = i_star
format srli_word = i_star
format srai_word = i_star
format add_word = r
format sub_word = r
format sll_word = r
format slt_word = r
format sltu_word = r
format xor_word = r
format srl_word = r
format sra_word = r
format or_word = r
format and_word = r
format mul_word = m
format mulh_word = m
format mulhsu_word = m
format mulhu_word = m
format div_word = m
format divu_word = m
format rem_word = m
format remu_word = m

-- Bits 0 to 6.
abbrev pub opcode : Mnemonic → ℕ
opcode lui_word = 0b0110111
opcode auipc_word = 0b0010111
opcode jal_word = 0b1101111
opcode jalr_word = 0b1100111
opcode beq_word = 0b1100011
opcode bne_word = 0b1100011
opcode blt_word = 0b1100011
opcode bge_word = 0b1100011
opcode bltu_word = 0b1100011
opcode bgeu_word = 0b1100011
opcode lb_word = 0b0000011
opcode lh_word = 0b0000011
opcode lw_word = 0b0000011
opcode lbu_word = 0b0000011
opcode lhu_word = 0b0000011
opcode sb_word = 0b0100011
opcode sh_word = 0b0100011
opcode sw_word = 0b0100011
opcode addi_word = 0b0010011
opcode slti_word = 0b0010011
opcode sltiu_word = 0b0010011
opcode xori_word = 0b0010011
opcode ori_word = 0b0010011
opcode andi_word = 0b0010011
opcode slli_word = 0b0010011
opcode srli_word = 0b0010011
opcode srai_word = 0b0010011
opcode add_word = 0b0110011
opcode sub_word = 0b0110011
opcode sll_word = 0b0110011
opcode slt_word = 0b0110011
opcode sltu_word = 0b0110011
opcode xor_word = 0b0110011
opcode srl_word = 0b0110011
opcode sra_word = 0b0110011
opcode or_word = 0b0110011
opcode and_word = 0b0110011
opcode mul_word = 0b0110011
opcode mulh_word = 0b0110011
opcode mulhsu_word = 0b0110011
opcode mulhu_word = 0b0110011
opcode div_word = 0b0110011
opcode divu_word = 0b0110011
opcode rem_word = 0b0110011
opcode remu_word = 0b0110011

-- Bits 12 to 14; 0 in a format without them.
abbrev pub funct3 : Mnemonic → ℕ
funct3 bne_word = 1
funct3 blt_word = 4
funct3 bge_word = 5
funct3 bltu_word = 6
funct3 bgeu_word = 7
funct3 lh_word = 1
funct3 lw_word = 2
funct3 lbu_word = 4
funct3 lhu_word = 5
funct3 sh_word = 1
funct3 sw_word = 2
funct3 slti_word = 2
funct3 sltiu_word = 3
funct3 xori_word = 4
funct3 ori_word = 6
funct3 andi_word = 7
funct3 slli_word = 1
funct3 srli_word = 5
funct3 srai_word = 5
funct3 sll_word = 1
funct3 slt_word = 2
funct3 sltu_word = 3
funct3 xor_word = 4
funct3 srl_word = 5
funct3 sra_word = 5
funct3 or_word = 6
funct3 and_word = 7
funct3 mulh_word = 1
funct3 mulhsu_word = 2
funct3 mulhu_word = 3
funct3 div_word = 4
funct3 divu_word = 5
funct3 rem_word = 6
funct3 remu_word = 7
funct3 _ = 0

-- Bits 25 to 31 of the register formats and the shifts.
abbrev pub funct7 : Mnemonic → ℕ
funct7 srai_word = 32
funct7 sub_word = 32
funct7 sra_word = 32
funct7 mul_word = 1
funct7 mulh_word = 1
funct7 mulhsu_word = 1
funct7 mulhu_word = 1
funct7 div_word = 1
funct7 divu_word = 1
funct7 rem_word = 1
funct7 remu_word = 1
funct7 _ = 0

-- What the units are asked to do.
abbrev pub operation : Mnemonic → Operation
operation lui_word = lui
operation auipc_word = auipc
operation jal_word = jalr
operation jalr_word = jalr
operation beq_word = eq
operation bne_word = ne
operation blt_word = lt
operation bge_word = ge
operation bltu_word = ltu
operation bgeu_word = geu
operation lb_word = load
operation lh_word = load
operation lw_word = load
operation lbu_word = load
operation lhu_word = load
operation sb_word = store
operation sh_word = store
operation sw_word = store
operation addi_word = add
operation slti_word = slt
operation sltiu_word = sltu
operation xori_word = op_xor
operation ori_word = op_or
operation andi_word = op_and
operation slli_word = sl
operation srli_word = srl
operation srai_word = sra
operation add_word = add
operation sub_word = sub
operation sll_word = sl
operation slt_word = slt
operation sltu_word = sltu
operation xor_word = op_xor
operation srl_word = srl
operation sra_word = sra
operation or_word = op_or
operation and_word = op_and
operation mul_word = mul
operation mulh_word = mulh
operation mulhsu_word = mulhsu
operation mulhu_word = mulhu
operation div_word = div
operation divu_word = divu
operation rem_word = rem
operation remu_word = remu

-- The operands of an instruction; the immediate is its 32-bit pattern.
pub record Operands : Type 0 where
  pub rd : ℕ
  pub rs1 : ℕ
  pub rs2 : ℕ
  pub imm : ℕ

-- A pattern that is the sign extension of its lowest `k + 1` bits.
abbrev pub Extends : ℕ → ℕ → Type 0
Extends k imm = (imm < 2 ^ 32) × ((imm + 2 ^ k) % 2 ^ 32 < 2 ^ k + 2 ^ k)

-- The immediates that a format can hold.
abbrev HasImm : RiscV → ℕ → Type 0
HasImm i imm = Extends 11 imm
HasImm i_star imm = imm < 2 ^ 5
HasImm s imm = Extends 11 imm
HasImm b imm = Extends 12 imm × (imm % 2 ≡ 0)
HasImm u imm = (imm < 2 ^ 32) × (imm % 2 ^ 12 ≡ 0)
HasImm j imm = Extends 20 imm × (imm % 2 ≡ 0)
HasImm _ imm = Unit

pub record Encodable (format : RiscV) (o : Operands) : Type 0 where
  pub rd_fits : o.rd < 2 ^ 5
  pub rs1_fits : o.rs1 < 2 ^ 5
  pub rs2_fits : o.rs2 < 2 ^ 5
  pub imm_fits : HasImm format o.imm

-- The upper source fields, from bit 12 on.
abbrev pub sources : ℕ → ℕ → ℕ → ℕ
sources f3 rs1 rs2 = f3 * 2 ^ 12 + rs1 * 2 ^ 15 + rs2 * 2 ^ 20

-- The word, field by field.
abbrev pub word : RiscV → (opcode f3 f7 : ℕ) → Operands → ℕ
word r op f3 f7 o = op + o.rd * 2 ^ 7 + sources f3 o.rs1 o.rs2 + f7 * 2 ^ 25
word m op f3 f7 o = op + o.rd * 2 ^ 7 + sources f3 o.rs1 o.rs2 + f7 * 2 ^ 25
word i op f3 f7 o = op + o.rd * 2 ^ 7 + sources f3 o.rs1 (o.imm % 2 ^ 12)
word i_star op f3 f7 o = op + o.rd * 2 ^ 7 + sources f3 o.rs1 o.imm + f7 * 2 ^ 25
word s op f3 f7 o =
    op + o.imm % 2 ^ 5 * 2 ^ 7 + sources f3 o.rs1 o.rs2 + o.imm / 2 ^ 5 % 2 ^ 7 * 2 ^ 25
word b op f3 f7 o =
    op
    + o.imm / 2 ^ 11 % 2 * 2 ^ 7
    + o.imm / 2 % 2 ^ 4 * 2 ^ 8
    + sources f3 o.rs1 o.rs2
    + o.imm / 2 ^ 5 % 2 ^ 6 * 2 ^ 25
    + o.imm / 2 ^ 12 % 2 * 2 ^ 31
word u op f3 f7 o = op + o.rd * 2 ^ 7 + o.imm / 2 ^ 12 * 2 ^ 12
word j op f3 f7 o =
    op
    + o.rd * 2 ^ 7
    + o.imm / 2 ^ 12 % 2 ^ 8 * 2 ^ 12
    + o.imm / 2 ^ 11 % 2 * 2 ^ 20
    + o.imm / 2 % 2 ^ 10 * 2 ^ 21
    + o.imm / 2 ^ 20 % 2 * 2 ^ 31
word _ op f3 f7 o = 0

abbrev pub encode : Mnemonic → Operands → ℕ
encode name o = word (format name) (opcode name) (funct3 name) (funct7 name) o
