-- ===== src/Decoder.antt =====
-- `Decoder::decode` of src/Decoder/Decoder.cpp, on a raw instruction word of 32 bits. Immediates
-- are `int32_t` patterns.
pub mod Stream
pub mod Queue
pub mod Encode
pub mod Fields
pub mod Classes
pub mod RoundTrip
use rv32im_simulator.Prelude.{
  ℕ, ◌+◌, ◌-◌, ◌*◌, ◌/◌, ◌^◌, Bool, true, false, not, ◌&&◌, ◌||◌, ◌==◌, if◌then◌else◌, bit_or,
  low_bits, u32, ◌>>>◌, ◌<<<◌, sra32,
}

-- `enum class RISC_V`, the instruction formats.
pub data RiscV : Type 0 where
  r i m i_star s b u j rv_invalid : RiscV

-- `struct Uop`; `UopView` has the same fields.
pub record Uop : Type 0 where
  pub format : RiscV
  pub opcode : ℕ
  pub funct3 : ℕ
  pub funct7 : ℕ
  pub rd : ℕ
  pub rs1 : ℕ
  pub rs2 : ℕ
  pub imm : ℕ
  pub pc : ℕ
  pub is_halt : Bool
  pub alloc_dest : Bool
  pub predicted_pc : ℕ
  pub ckpt_id : ℕ

-- `Decoder::signExtend`: up to the top of the word, and back with the sign.
unfoldable pub sign_extend : ℕ → ℕ → ℕ
sign_extend x len = sra32 (u32 (x <<< (32 - len))) (32 - len)

-- The lambda `getImm`, which also reads `inst.rd`.
unfoldable pub get_imm : ℕ → ℕ → RiscV → ℕ
unfolding sign_extend
get_imm raw rd i_star = low_bits 5 (raw >>> 20)
get_imm raw rd i = sign_extend (low_bits 12 (raw >>> 20)) 12
get_imm raw rd s = sign_extend (bit_or (low_bits 5 (raw >>> 7)) (u32 (raw >>> 25 <<< 5))) 12
get_imm raw rd b =
    sign_extend
      (bit_or
        (bit_or (bit_or (u32 (raw >>> 31 <<< 12)) (low_bits 6 (raw >>> 25) <<< 5))
          (low_bits 1 rd <<< 11))
        (rd >>> 1 <<< 1))
      13
get_imm raw rd j =
    sign_extend
      (bit_or
        (bit_or (bit_or (u32 (raw >>> 31 <<< 20)) (low_bits 10 (raw >>> 21) <<< 1))
          (u32 (u32 (raw <<< 11) >>> 31 <<< 11)))
        (u32 (u32 (raw <<< 12) >>> 24 <<< 12)))
      21
get_imm raw rd u = raw >>> 12 <<< 12
get_imm raw rd _ = 0

abbrev same_format : RiscV → RiscV → Bool
same_format s s = true
same_format b b = true
same_format _ _ = false

-- The switch over the opcode: the format.
unfoldable pub format_of : ℕ → ℕ → ℕ → RiscV
format_of opcode funct3 funct7 =
    if opcode == 0b0110011
    then (if funct7 == 1 then m else r)
    else if opcode == 0b0010011
    then (let link_funct = bit_or (funct3 <<< 7) funct7 in
        if (link_funct == 0b0010000000)
          || (link_funct == 0b1010000000)
          || (link_funct == 0b1010100000)
        then i_star
        else i)
    else if (opcode == 0b0000011) || (opcode == 0b1100111)
    then i
    else if opcode == 0b0100011
    then s
    else if opcode == 0b1100011
    then b
    else if opcode == 0b1101111
    then j
    else if (opcode == 0b0010111) || (opcode == 0b0110111)
    then u
    else rv_invalid

-- `funct7` is filled in for the register and the immediate arithmetic only.
unfoldable pub funct7_of : ℕ → ℕ → ℕ
funct7_of raw opcode =
    if (opcode == 0b0110011) || (opcode == 0b0010011) then low_bits 7 (raw >>> 25) else 0

unfoldable pub decode : ℕ → Uop
unfolding get_imm format_of funct7_of
decode raw =
    let opcode = low_bits 7 raw in
    let funct3 = low_bits 3 (raw >>> 12) in
    let funct7 = funct7_of raw opcode in
    let rd = low_bits 5 (raw >>> 7) in
    let format = format_of opcode funct3 funct7 in
    record {
      format = format;
      opcode = opcode;
      funct3 = funct3;
      funct7 = funct7;
      rd = rd;
      rs1 = low_bits 5 (raw >>> 15);
      rs2 = low_bits 5 (raw >>> 20);
      imm = get_imm raw rd format;
      pc = 0;
      is_halt = false;
      alloc_dest = not (same_format format s) && not (same_format format b) && not (rd == 0);
      predicted_pc = 0;
      ckpt_id = 0;
    }
