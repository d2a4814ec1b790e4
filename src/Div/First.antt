-- ===== src/Div/First.antt =====
-- `DIV::prepare` of src/DIV/DIV.cpp aligns the operands and takes the first digit.
use rv32im_simulator.Prelude.{
  ℕ, ◌+◌, ◌-◌, ◌*◌, ◌%◌, ◌^◌, ◌<◌, ◌≤◌, ◌≡◌, refl, not, Bool, true, false, u32, u64, ◌>>>◌, ◌<<<◌,
  complement, if◌then◌else◌, arith, ◌==◌, u8,
}
use rv32im_simulator.Prelude.Bits.{full_adder}
use rv32im_simulator.Div.{Div}
use rv32im_simulator.Div.Clz.{clz}
use rv32im_simulator.Div.Normal.{clz_normal}
use rv32im_simulator.Div.Iterate.{
  Digit, plus_two, plus_one, width, ulp_exp, first_digit, first_registers, prepare,
}
use rv32im_simulator.Div.Digit.{Aligned, d_slice}
use rv32im_simulator.Div.Round.{Converted, Running}

-- The first digit as a number.
abbrev first_weight : Digit → ℕ
first_weight plus_two = 2
first_weight plus_one = 1
first_weight _ = 0

abbrev taken_first : Bool → ℕ → ℕ → Digit
taken_first shift_d p d =
    first_digit (u32 (p >>> (ulp_exp shift_d - 1))) (d_slice shift_d d)
      (d_slice shift_d d + (d_slice shift_d d <<< 1))

-- The first digit leaves at most two thirds of the divisor.
FitsFirst : (p d q : ℕ) → Type 0
FitsFirst p d q = (q * d ≤ p + d) × (3 * (q * d) ≤ 3 * p + 2 * d) × (3 * p ≤ 2 * d + 3 * (q * d))

first-FitsFirst :
    (shift_d : Bool) (p d : ℕ)
    → Aligned shift_d d
    → 2 ^ 31 ≤ p
    → p < 2 ^ 32
    → FitsFirst p d (first_weight (taken_first shift_d p d))
unfolding first_digit FitsFirst
first-FitsFirst true p d a l h = ground arith
first-FitsFirst false p d a l h = ground arith

first_value :
    (digit : Digit) (shift_d : Bool) (p d : ℕ) (unit : Div)
    → Aligned shift_d d
    → p < 2 ^ 32
    → first_weight digit * d ≤ p + d
    → ((first_registers digit p d unit).reg_s + (first_registers digit p d unit).reg_c + 4 * d)
        % 2 ^ width shift_d
      ≡ (4 * (p + d - first_weight digit * d)) % 2 ^ width shift_d
unfolding first_registers
first_value digit true p d unit a h k =
    ground (arith, full_adder p (complement 64 d) 1, full_adder p (complement 64 (u64 (d <<< 1))) 1)
first_value digit false p d unit a h k =
    ground (arith, full_adder p (complement 64 d) 1, full_adder p (complement 64 (u64 (d <<< 1))) 1)

first-Converted :
    (digit : Digit) (p d : ℕ) (unit : Div)
    → Converted
        (first_weight digit)
        (first_registers digit p d unit).reg_a
        (first_registers digit p d unit).reg_b
unfolding first_registers
first-Converted digit p d unit = ground arith

-- The state that `DIV::prepare` leaves, for any counts.
first-Running :
    (shift_d : Bool) (p d before_x before_d times : ℕ) (unit : Div)
    → Aligned shift_d d
    → 2 ^ 31 ≤ p
    → p < 2 ^ 32
    → let slice = d_slice shift_d d in
      Running
        (record (first_registers (taken_first shift_d p d) p d unit) {
          clz_x = before_x;
          clz_d = before_d;
          prepare_valid = false;
          unsigned_divisor = d;
          unsigned_dividend = p;
          loop_times = times;
          shift_d = shift_d;
          d_slice = slice;
          d_slice3 = slice + (slice <<< 1);
          loop_valid = not (times == 0);
          full_adder_valid = times == 0;
        })
        p
unfolding FitsFirst
first-Running shift_d p d before_x before_d times unit a l h =
    let digit = taken_first shift_d p d in
    let fits = first-FitsFirst shift_d p d a l h in
    record {
      q = first_weight digit;
      v = p + d - first_weight digit * d;
      residual = record {
        aligned = a;
        value = first_value digit shift_d p d unit a h fits.0;
        low = omega arith;
        high = omega arith;
      };
      converted = first-Converted digit p d unit;
      whole = omega arith;
      slice = refl;
      slice3 = refl;
    }

-- The operands as `DIV::prepare` computes their alignment.
abbrev is_shifted : ℕ → ℕ → Bool
is_shifted x d = (u8 (clz d) + 512 - u8 (clz x)) % 2 == 1

abbrev aligned_divisor : ℕ → ℕ → ℕ
aligned_divisor x d = u64 (u64 (d <<< u8 (clz d)) <<< (if is_shifted x d then 1 else 0))

divisor-Aligned : (x d : ℕ) → 0 < d → d < 2 ^ 32 → Aligned (is_shifted x d) (aligned_divisor x d)
divisor-Aligned x d h k = ground (arith, clz_normal d h k)

pub prepare-Running :
    (unit : Div)
    → let x = unit.unsigned_dividend in
      let d = unit.unsigned_divisor in
      0 < d → d < x → x < 2 ^ 32 → Running (prepare unit) (u64 (x <<< u8 (clz x)))
unfolding prepare
prepare-Running unit h k l =
    let x = unit.unsigned_dividend in
    let d = unit.unsigned_divisor in
    first-Running (is_shifted x d) (u64 (x <<< u8 (clz x))) (aligned_divisor x d) _ _ _ unit
      (divisor-Aligned x d h (omega arith)) (ground (arith, clz_normal x))
      (ground (arith, clz_normal x))
