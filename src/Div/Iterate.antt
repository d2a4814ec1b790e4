-- ===== src/Div/Iterate.antt =====
-- The iteration of the divider, `DIV::prepare`, `DIV::loop`, `DIV::calculateResult`, `DIV::flush`
-- and `DIV::tick` of src/DIV/DIV.cpp: an SRT division with digits -2 to 2, the remainder in
-- carry-save form and the quotient converted on the fly. Stages read the registers of the old state.
use rv32im_simulator.Prelude.{
  ℕ, ◌+◌, ◌-◌, ◌%◌, ◌^◌, Bool, true, false, not, ◌==◌, leb, if◌then◌else◌, bit_and, bit_or, bit_xor,
  low_bits, complement, u8, u32, u64, slt32, ◌>>>◌, ◌<<<◌, get_or,
}
use rv32im_simulator.Prelude.Bits.{xor3, majority}
use rv32im_simulator.Types.{SquashInfo, DispatchInfo}
use rv32im_simulator.Tags.{is_older}
use rv32im_simulator.Prf.{Prf, get_operand_value}
use rv32im_simulator.Rs.{RsUnit, empty_station}
use rv32im_simulator.Div.{Div, initial, receive}
use rv32im_simulator.Div.Clz.{clz}

-- `DIVInput`; of the result bus the divider reads the valid bit.
pub record DivInput : Type 0 where
  pub squash : SquashInfo
  pub rs : RsUnit
  pub prf : Prf
  pub cdb_valid : Bool
  pub dispatch : DispatchInfo

-- `ulpExpWithShiftD` and `ulpExpNoShiftD`.
abbrev pub ulp_exp : Bool → ℕ
ulp_exp shift_d = if shift_d then 28 else 27

-- `sliceShiftWithShiftD` and `sliceShiftNoShiftD`.
abbrev pub slice_shift : Bool → ℕ
slice_shift shift_d = if shift_d then 27 else 26

-- The width of the remainder's registers, of which `mask` is the word of ones.
abbrev pub width : Bool → ℕ
width shift_d = if shift_d then 36 else 35

-- The quotient digits, one for each branch.
pub data Digit : Type 0 where
  plus_two plus_one none_digit minus_one minus_two : Digit

-- The choice of the first digit.
unfoldable pub first_digit : ℕ → ℕ → ℕ → Digit
first_digit slice d_slice d_slice3 =
    if not (slt32 slice d_slice3)
    then plus_two
    else if not (slt32 slice d_slice)
    then plus_one
    else none_digit

-- The registers after the first digit; a digit 2 or 1 adds the complement and a one.
unfoldable pub first_registers : Digit → ℕ → ℕ → Div → Div
first_registers plus_two p d unit =
    let t = complement 64 (u64 (d <<< 1)) in
    record unit {
      reg_s = u64 (xor3 p t 1 <<< 2);
      reg_c = u64 (majority p t 1 <<< 3);
      reg_a = 2;
      reg_b = 1;
    }
first_registers plus_one p d unit =
    let t = complement 64 d in
    record unit {
      reg_s = u64 (xor3 p t 1 <<< 2);
      reg_c = u64 (majority p t 1 <<< 3);
      reg_a = 1;
      reg_b = 0;
    }
first_registers _ p d unit = record unit { reg_s = u64 (p <<< 2); reg_c = 0; reg_a = 0; reg_b = 3 }

-- The difference of the counts is taken modulo 512, which keeps the low byte of its half and its
-- lowest bit.
unfoldable pub prepare : Div → Div
unfolding first_digit first_registers
prepare unit =
    let zeros_x = u8 (clz unit.unsigned_dividend) in
    let zeros_d = u8 (clz unit.unsigned_divisor) in
    let align = zeros_d + 512 - zeros_x in
    let times = u8 ((align + 1) >>> 1) in
    let shift_d = align % 2 == 1 in
    let p = u64 (unit.unsigned_dividend <<< zeros_x) in
    let d = u64 (u64 (unit.unsigned_divisor <<< zeros_d) <<< (if shift_d then 1 else 0)) in
    let d_slice = low_bits 5 (d >>> ulp_exp shift_d) in
    let d_slice3 = d_slice + (d_slice <<< 1) in
    let slice = u32 (p >>> (ulp_exp shift_d - 1)) in
    record (first_registers (first_digit slice d_slice d_slice3) p d unit) {
      clz_x = zeros_x;
      clz_d = zeros_d;
      prepare_valid = false;
      unsigned_divisor = d;
      unsigned_dividend = p;
      loop_times = times;
      shift_d = shift_d;
      d_slice = d_slice;
      d_slice3 = d_slice3;
      loop_valid = not (times == 0);
      full_adder_valid = times == 0;
    }

-- `slice` with 256 added: `^ 0x100` turns the top bit of nine over, and `& ~1` drops the lowest.
unfoldable pub estimate : Bool → ℕ → ℕ → ℕ
estimate shift_d old_s old_c =
    let shift = slice_shift shift_d in
    let sum9 = low_bits 9 (old_s >>> shift) + low_bits 9 (old_c >>> shift) in
    let biased = (low_bits 9 sum9 + 256) % 512 in biased - biased % 2

-- The tests of `DIV::loop`, with 256 added on both sides.
unfoldable pub next_digit : ℕ → ℕ → ℕ → Digit
next_digit slice d_slice d_slice3 =
    if leb (d_slice3 + 256) slice
    then plus_two
    else if leb (d_slice + 256) slice
    then plus_one
    else if leb 256 (slice + d_slice)
    then none_digit
    else if leb 256 (slice + d_slice3)
    then minus_one
    else minus_two

-- One row of full adders with a complemented subtrahend and a carry in.
unfoldable pub subtract_row : ℕ → ℕ → ℕ → ℕ → ℕ × ℕ
subtract_row pw s4 c4 subtrahend =
    let t = bit_xor (2 ^ pw - 1) subtrahend in
    (low_bits pw (xor3 s4 c4 t), low_bits pw (bit_or (majority s4 c4 t <<< 1) 1))

unfoldable pub add_row : ℕ → ℕ → ℕ → ℕ → ℕ × ℕ
add_row pw s4 c4 addend =
    (low_bits pw (xor3 s4 c4 addend), low_bits pw (majority s4 c4 addend <<< 1))

-- A row of half adders.
unfoldable pub keep_row : ℕ → ℕ → ℕ → ℕ × ℕ
keep_row pw s4 c4 = (low_bits pw (bit_xor s4 c4), low_bits pw (bit_and s4 c4 <<< 1))

-- `regS` and `regC` of each branch.
unfoldable pub next_remainder : Digit → ℕ → ℕ → ℕ → ℕ → ℕ × ℕ
unfolding subtract_row add_row keep_row
next_remainder plus_two pw d s4 c4 = subtract_row pw s4 c4 (u64 (d <<< 3))
next_remainder plus_one pw d s4 c4 = subtract_row pw s4 c4 (u64 (d <<< 2))
next_remainder none_digit pw d s4 c4 = keep_row pw s4 c4
next_remainder minus_one pw d s4 c4 = add_row pw s4 c4 (u64 (d <<< 2))
next_remainder minus_two pw d s4 c4 = add_row pw s4 c4 (u64 (d <<< 3))

-- `(x << 2) | digits` on a 32-bit register.
unfoldable pub append_digits : ℕ → ℕ → ℕ
append_digits x digits = bit_or (u32 (x <<< 2)) digits

-- `regA` and `regB` of each branch.
unfoldable pub next_quotient : Digit → ℕ → ℕ → ℕ × ℕ
unfolding append_digits
next_quotient plus_two a b = (append_digits a 2, append_digits a 1)
next_quotient plus_one a b = (append_digits a 1, append_digits a 0)
next_quotient none_digit a b = (u32 (a <<< 2), append_digits b 3)
next_quotient minus_one a b = (append_digits b 3, append_digits b 2)
next_quotient minus_two a b = (append_digits b 2, append_digits b 1)

unfoldable pub loop : ℕ → ℕ → ℕ → ℕ → Div → Div
unfolding estimate next_digit next_remainder next_quotient
loop old_s old_c old_a old_b unit =
    let digit = next_digit (estimate unit.shift_d old_s old_c) unit.d_slice unit.d_slice3 in
    let pw = width unit.shift_d in
    let remainder =
      next_remainder digit pw unit.unsigned_divisor (low_bits pw (old_s <<< 2))
        (low_bits pw (old_c <<< 2)) in
    let quotients = next_quotient digit old_a old_b in
    let times = u8 (unit.loop_times + 255) in
    record unit {
      reg_s = remainder.0;
      reg_c = remainder.1;
      reg_a = quotients.0;
      reg_b = quotients.1;
      loop_times = times;
      loop_valid = not (times == 0);
      full_adder_valid = if times == 0 then true else unit.full_adder_valid;
    }

-- `Pk` as a 64-bit word: the sum, cut to the width and extended by its sign.
unfoldable pub full_sum : Bool → ℕ → ℕ → ℕ
full_sum shift_d old_s old_c =
    let pw = width shift_d in
    let pk = low_bits pw (u64 (old_s + old_c)) in
    if leb (2 ^ (pw - 1)) pk then pk + 2 ^ 64 - 2 ^ pw else pk

unfoldable pub calculate_result : ℕ → ℕ → ℕ → ℕ → Div → Div
unfolding full_sum
calculate_result old_s old_c old_a old_b unit =
    let pk = full_sum unit.shift_d old_s old_c in
    let align_back =
      λ (x : ℕ). u32 (((x >>> 2) >>> (if unit.shift_d then 1 else 0)) >>> unit.clz_d) in
    let restored = u64 (pk + u64 (unit.unsigned_divisor <<< 2)) in
    record unit {
      quotient = if pk >>> 63 == 0 then old_a else old_b;
      remain = align_back (if pk >>> 63 == 0 then pk else restored);
      full_adder_valid = false;
      result_valid = true;
    }

-- A flush clears every register but the operation.
unfoldable pub flush : ℕ → Div → Div
flush tag unit =
    if is_older tag unit.rob_tag
    then record initial { operation_type = unit.operation_type }
    else unit

-- `DIV::tick` on the next state, which starts as the old one.
unfoldable pub tick : DivInput → Div → Div
tick input old =
    let consumed = if input.cdb_valid then record old { result_valid = false } else old in
    let added =
      if old.full_adder_valid
      then calculate_result old.reg_s old.reg_c old.reg_a old.reg_b consumed
      else consumed in
    let looped =
      if old.loop_valid then loop old.reg_s old.reg_c old.reg_a old.reg_b added else added in
    let prepared = if old.prepare_valid then prepare looped else looped in
    let station = get_or input.rs.divide_rs input.dispatch.rs_index empty_station in
    let received =
      if input.dispatch.valid
      then receive (get_operand_value input.prf station.src1)
          (get_operand_value input.prf station.src2) input.dispatch.rob_tag station.op prepared
      else prepared in
    if input.squash.need_squash then flush input.squash.squash_tag received else received
