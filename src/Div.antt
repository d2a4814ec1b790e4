-- ===== src/Div.antt =====
-- The divider of src/include/DIV.hpp and src/DIV/DIV.cpp: its state, `receive` with the special cases,
-- `getValue` and `canAccept`. `Div.Iterate` has the iteration and the clocked part.
pub mod Clz
pub mod Special
pub mod Iterate
pub mod Digit
pub mod Rows
pub mod Round
pub mod First
pub mod Result
pub mod Clock
pub mod Align
pub mod Iterated
pub mod Latency
pub mod Normal
use rv32im_simulator.Prelude.{
  ℕ, ◌+◌, ◌-◌, ◌*◌, ◌^◌, Bool, true, false, not, ◌&&◌, ◌||◌, ◌==◌, ltb, if◌then◌else◌, Option, none,
  some, is_negative, complement, u32, add32, sub32, ◌>>>◌,
}
use rv32im_simulator.Types.{Operation, op_invalid, div, divu, rem, remu}

-- `dSlice` and `dSlice3` are never negative.
pub record Div : Type 0 where
  pub unsigned_divisor : ℕ
  pub unsigned_dividend : ℕ
  pub prepare_valid : Bool
  pub is_dividend_negative : Bool
  pub is_result_negative : Bool
  pub clz_x : ℕ
  pub clz_d : ℕ
  pub loop_times : ℕ
  pub reg_s : ℕ
  pub reg_c : ℕ
  pub reg_a : ℕ
  pub reg_b : ℕ
  pub d_slice : ℕ
  pub d_slice3 : ℕ
  pub loop_valid : Bool
  pub quotient : ℕ
  pub remain : ℕ
  pub rob_tag : ℕ
  pub operation_type : Operation
  pub full_adder_valid : Bool
  pub shift_d : Bool
  pub result_valid : Bool

abbrev pub initial : Div
initial = record {
  unsigned_divisor = 0;
  unsigned_dividend = 0;
  prepare_valid = false;
  is_dividend_negative = false;
  is_result_negative = false;
  clz_x = 0;
  clz_d = 0;
  loop_times = 0;
  reg_s = 0;
  reg_c = 0;
  reg_a = 0;
  reg_b = 0;
  d_slice = 0;
  d_slice3 = 0;
  loop_valid = false;
  quotient = 0;
  remain = 0;
  rob_tag = 0;
  operation_type = op_invalid;
  full_adder_valid = false;
  shift_d = false;
  result_valid = false;
}

unfoldable pub can_accept : Div → Bool
can_accept unit =
    not unit.prepare_valid
    && not unit.loop_valid
    && not unit.full_adder_valid
    && not unit.result_valid

-- `-static_cast<int32_t>(x)`.
abbrev pub negate32 : ℕ → ℕ
negate32 x = sub32 0 x

-- `none` is the exception "not DIV operation!".
unfoldable pub get_value : Div → Option ℕ
get_value unit = elim unit.operation_type [
  | div ↦ some (if unit.is_result_negative then negate32 unit.quotient else unit.quotient)
  | divu ↦ some unit.quotient
  | rem ↦ some (if unit.is_dividend_negative then negate32 unit.remain else unit.remain)
  | remu ↦ some unit.remain
  | _ ↦ none
]

-- `~x + 1` on a negative pattern.
abbrev pub magnitude : ℕ → ℕ
magnitude x = if is_negative x then add32 (complement 32 x) 1 else x

abbrev pub is_signed_op : Operation → Bool
is_signed_op div = true
is_signed_op rem = true
is_signed_op _ = false

abbrev pub is_quotient_op : Operation → Bool
is_quotient_op div = true
is_quotient_op divu = true
is_quotient_op _ = false

abbrev pub is_divide_op : Operation → Bool
is_divide_op div = true
is_divide_op divu = true
is_divide_op rem = true
is_divide_op remu = true
is_divide_op _ = false

abbrev pub same_bool : Bool → Bool → Bool
same_bool true x = x
same_bool false x = not x

-- The special cases of `DIV::receive`, in its order: the quotient and the remainder with which an
-- operation finishes at once. Divisor 0 comes first, then `INT32_MIN / -1`, then operands of which
-- the first is smaller than the second or equal to it, in magnitude where the operation is signed.
unfoldable pub special_case : Operation → ℕ → ℕ → Option (ℕ × ℕ)
special_case op op1 op2 =
    let quotient_op = is_quotient_op op in
    let signed = is_signed_op op in
    let x = if signed then magnitude op1 else op1 in
    let d = if signed then magnitude op2 else op2 in
    if not (is_divide_op op)
    then none
    else if op2 == 0
    then some (if quotient_op then (0xffff_ffff, 0) else (0, op1))
    else if signed && (op1 == 2 ^ 31) && (op2 == 2 ^ 32 - 1)
    then some (if quotient_op then (2 ^ 31, 0) else (0, 0))
    else if ltb x d
    then some (0, if quotient_op then 0 else op1)
    else if x == d
    then some (
      if not quotient_op
          then 0
          else if signed && not (same_bool (is_negative op1) (is_negative op2))
          then 0xffff_ffff
          else 1,
      0,
    )
    else none

-- The lambda `finish`.
unfoldable pub finish : ℕ → ℕ → ℕ → Operation → Div → Div
finish quotient_value remain_value tag op unit = record unit {
  quotient = quotient_value;
  remain = remain_value;
  is_result_negative = false;
  is_dividend_negative = false;
  result_valid = true;
  rob_tag = tag;
  operation_type = op;
}

-- What is left of `DIV::receive` when no special case applies: the magnitudes and signs.
unfoldable pub start : ℕ → ℕ → ℕ → Operation → Div → Div
start op1 op2 tag op unit =
    let dividend_negative = is_signed_op op && is_negative op1 in
    let divisor_negative = is_signed_op op && is_negative op2 in
    record unit {
      result_valid = false;
      rob_tag = tag;
      operation_type = op;
      is_dividend_negative = dividend_negative;
      unsigned_dividend = if dividend_negative then magnitude op1 else op1;
      unsigned_divisor = if divisor_negative then magnitude op2 else op2;
      is_result_negative = not (same_bool divisor_negative dividend_negative);
      prepare_valid = true;
    }

unfoldable pub receive : ℕ → ℕ → ℕ → Operation → Div → Div
unfolding special_case finish start
receive op1 op2 tag op unit = elim (special_case op op1 op2) [
  | some (q, r) ↦ finish q r tag op unit
  | none ↦ start op1 op2 tag op unit
]
