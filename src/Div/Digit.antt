-- ===== src/Div/Digit.antt =====
-- The choice of a digit in `DIV::loop` of src/DIV/DIV.cpp: the two nine-bit slices place the
-- remainder well enough for a digit that leaves at most two thirds of the divisor.
use rv32im_simulator.Prelude.{
  ℕ, ◌+◌, ◌*◌, ◌%◌, ◌^◌, ◌<◌, ◌≤◌, ◌≡◌, Bool, true, false, if◌then◌else◌, arith, low_bits, ◌>>>◌,
  ◌<<<◌,
}
use rv32im_simulator.Div.Iterate.{
  Digit, plus_two, plus_one, none_digit, minus_one, minus_two, ulp_exp, slice_shift, width,
  estimate, next_digit,
}

-- The digit with 3 added.
abbrev pub weight : Digit → ℕ
weight plus_two = 5
weight plus_one = 4
weight none_digit = 3
weight minus_one = 2
weight minus_two = 1

-- The divisor as `DIV::prepare` aligns it: its highest one is at bit 31, or at bit 32 after the
-- extra shift.
abbrev pub Aligned : Bool → ℕ → Type 0
Aligned shift_d d = let top : ℕ = 2 ^ (if shift_d then 32 else 31) in (top ≤ d) × (d < 2 * top)

-- The remainder in its registers is four times `v - d`, where `v` lies between one and five thirds
-- of the divisor `d`.
pub record Residual (shift_d : Bool) (d v s c : ℕ) : Type 0 where
  pub aligned : Aligned shift_d d
  pub value : (s + c + 4 * d) % 2 ^ width shift_d ≡ (4 * v) % 2 ^ width shift_d
  pub low : d ≤ 3 * v
  pub high : 3 * v ≤ 5 * d

-- The place of the remainder that the slices tell, within three units of the slice.
Placed : Bool → (d v e : ℕ) → Type 0
Placed shift_d d v e =
    let unit : ℕ = 2 ^ slice_shift shift_d in
    (e * unit + 4 * d ≤ 4 * v + 256 * unit) × (4 * v + 256 * unit < (e + 3) * unit + 4 * d)

estimate-Placed :
    (shift_d : Bool) (d v s c : ℕ)
    → Residual shift_d d v s c
    → Placed shift_d d v (estimate shift_d s c)
unfolding estimate Placed
estimate-Placed true d v s c r = omega arith
estimate-Placed false d v s c r = omega arith

abbrev pub d_slice : Bool → ℕ → ℕ
d_slice shift_d d = low_bits 5 (d >>> ulp_exp shift_d)

-- The digit leaves a remainder within the bounds, and is not negative when the remainder is not.
abbrev pub Fits : (d v q : ℕ) → Type 0
Fits d v q =
    (q * d ≤ 4 * v) × (d + 3 * (q * d) ≤ 12 * v) × (12 * v ≤ 5 * d + 3 * (q * d)) × (d ≤ v → 3 ≤ q)

Placed-digit :
    (shift_d : Bool) (d v e : ℕ)
    → Aligned shift_d d
    → d ≤ 3 * v
    → 3 * v ≤ 5 * d
    → Placed shift_d d v e
    → Fits d v
        (weight (next_digit e (d_slice shift_d d) (d_slice shift_d d + (d_slice shift_d d <<< 1))))
unfolding next_digit Placed
Placed-digit true d v e a l h p = ground arith
Placed-digit false d v e a l h p = ground arith

pub digit-Fits :
    (shift_d : Bool) (d v s c : ℕ)
    → Residual shift_d d v s c
    → Fits d v (
        weight (
          next_digit
            (estimate shift_d s c)
            (d_slice shift_d d)
            (d_slice shift_d d + (d_slice shift_d d <<< 1))))
digit-Fits shift_d d v s c r =
    Placed-digit shift_d d v (estimate shift_d s c) r.aligned r.low r.high
      (estimate-Placed shift_d d v s c r)
