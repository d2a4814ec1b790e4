-- ===== src/Div/Round.antt =====
-- One round of `DIV::loop` in src/DIV/DIV.cpp keeps what the registers stand for.
use rv32im_simulator.Prelude.{
  ℕ, ◌+◌, ◌-◌, ◌*◌, ◌%◌, ◌^◌, ◌<◌, ◌≤◌, ◌≡◌, zero, suc, Bool, true, false, low_bits, ◌<<<◌, ap,
  arith,
}
use rv32im_simulator.Div.{Div}
use rv32im_simulator.Div.Iterate.{
  Digit, plus_two, plus_one, none_digit, minus_one, minus_two, width, estimate, next_digit,
  next_remainder, next_quotient, loop,
}
use rv32im_simulator.Div.Digit.{weight, Aligned, Residual, d_slice, Fits, digit-Fits}
use rv32im_simulator.Div.Rows.{SameWidth, subtract_sum, add_sum, keep_sum, append_digits_sum}

-- What a round does to the remainder, with 3 times the divisor added on both sides.
next_remainder_sum :
    (shift_d : Bool) (digit : Digit) (d s c : ℕ)
    → Aligned shift_d d
    → let row =
        next_remainder digit
          (width shift_d)
          d
          (low_bits (width shift_d) (s <<< 2))
          (low_bits (width shift_d) (c <<< 2)) in
      SameWidth shift_d (row.0 + row.1 + weight digit * (4 * d)) (4 * s + 4 * c + 12 * d)
unfolding next_remainder
next_remainder_sum true digit d s c a =
    let s4 = (s * 4) % 2 ^ 36 in
    let c4 = (c * 4) % 2 ^ 36 in
    let once = (d * 4) % 2 ^ 64 in
    let twice = (d * 8) % 2 ^ 64 in
    ground (
      arith,
      subtract_sum s4 c4 once true (omega arith),
      subtract_sum s4 c4 twice true (omega arith),
      keep_sum s4 c4 true,
      add_sum s4 c4 once true,
      add_sum s4 c4 twice true,
    )
next_remainder_sum false digit d s c a =
    let s4 = (s * 4) % 2 ^ 35 in
    let c4 = (c * 4) % 2 ^ 35 in
    let once = (d * 4) % 2 ^ 64 in
    let twice = (d * 8) % 2 ^ 64 in
    ground (
      arith,
      subtract_sum s4 c4 once false (omega arith),
      subtract_sum s4 c4 twice false (omega arith),
      keep_sum s4 c4 false,
      add_sum s4 c4 once false,
      add_sum s4 c4 twice false,
    )

-- The quotient so far and the one below it, which matters only when there is one.
pub record Converted (q a b : ℕ) : Type 0 where
  pub exact : a ≡ q % 2 ^ 32
  pub below : b < 2 ^ 32
  pub less : 0 < q → (b + 1) % 2 ^ 32 ≡ q % 2 ^ 32

next_quotient-Converted :
    (digit : Digit) (q q' a b : ℕ)
    → Converted q a b
    → q' + 3 ≡ 4 * q + weight digit
    → Converted q' (next_quotient digit a b).0 (next_quotient digit a b).1
unfolding next_quotient
next_quotient-Converted plus_two q q' a b w e =
    ground (arith, append_digits_sum a 2 (omega arith), append_digits_sum a 1 (omega arith))
next_quotient-Converted plus_one q q' a b w e =
    ground (arith, append_digits_sum a 1 (omega arith), append_digits_sum a 0 (omega arith))
next_quotient-Converted none_digit q q' a b w e =
    ground (arith, append_digits_sum b 3 (omega arith))
next_quotient-Converted minus_one q q' a b w e =
    ground (arith, append_digits_sum b 3 (omega arith), append_digits_sum b 2 (omega arith))
next_quotient-Converted minus_two q q' a b w e =
    ground (arith, append_digits_sum b 2 (omega arith), append_digits_sum b 1 (omega arith))

-- A unit in its rounds: the digits so far and what is left of the dividend `m` at this scale.
pub record Running (unit : Div) (m : ℕ) : Type 0 where
  pub q : ℕ
  pub v : ℕ
  pub residual : Residual unit.shift_d unit.unsigned_divisor v unit.reg_s unit.reg_c
  pub converted : Converted q unit.reg_a unit.reg_b
  pub whole : m + unit.unsigned_divisor ≡ q * unit.unsigned_divisor + v
  pub slice : unit.d_slice ≡ d_slice unit.shift_d unit.unsigned_divisor
  pub slice3 : unit.d_slice3 ≡ unit.d_slice + (unit.d_slice <<< 1)

abbrev chosen : Div → Digit
chosen unit = next_digit (estimate unit.shift_d unit.reg_s unit.reg_c) unit.d_slice unit.d_slice3

chosen-Fits :
    (unit : Div) (m : ℕ) (r : Running unit m)
    → Fits unit.unsigned_divisor r.v (weight (chosen unit))
chosen-Fits unit m r =
    rw (r.slice3, r.slice)
      (digit-Fits unit.shift_d unit.unsigned_divisor r.v unit.reg_s unit.reg_c r.residual)

abbrev pub round : Div → Div
round unit = loop unit.reg_s unit.reg_c unit.reg_a unit.reg_b unit

value_step :
    (shift_d : Bool) (s' c' s c d v wd : ℕ)
    → SameWidth shift_d (s' + c' + 4 * wd) (4 * s + 4 * c + 12 * d)
    → SameWidth shift_d (s + c + 4 * d) (4 * v)
    → wd ≤ 4 * v
    → SameWidth shift_d (s' + c' + 4 * d) (4 * (4 * v - wd))
value_step true s' c' s c d v wd e f h = omega arith
value_step false s' c' s c d v wd e f h = omega arith

abbrev next_row : Div → ℕ × ℕ
next_row unit =
    let pw = width unit.shift_d in
    next_remainder (chosen unit) pw unit.unsigned_divisor (low_bits pw (unit.reg_s <<< 2))
      (low_bits pw (unit.reg_c <<< 2))

module _ (unit : Div) (m : ℕ) (r : Running unit m) where
  round-Residual :
      Residual unit.shift_d unit.unsigned_divisor
        (4 * r.v - weight (chosen unit) * unit.unsigned_divisor)
        (next_row unit).0
        (next_row unit).1
  round-Residual =
      let d = unit.unsigned_divisor in
      let w = weight (chosen unit) in
      let fits = chosen-Fits unit m r in
      let row =
        next_remainder_sum unit.shift_d (chosen unit) d unit.reg_s unit.reg_c r.residual.aligned in
      let four : w * (4 * d) ≡ 4 * (w * d) = omega arith in
      record {
        aligned = r.residual.aligned;
        value =
            value_step unit.shift_d (next_row unit).0 (next_row unit).1 unit.reg_s unit.reg_c d r.v
              (w * d) (rw four at row) r.residual.value fits.0;
        low = omega arith;
        high = omega arith;
      }

  enough_digits : 3 ≤ 4 * r.q + weight (chosen unit)
  enough_digits = enough r.q r.whole (chosen-Fits unit m r)
    where
      enough :
          (q : ℕ)
          → m + unit.unsigned_divisor ≡ q * unit.unsigned_divisor + r.v
          → Fits unit.unsigned_divisor r.v (weight (chosen unit))
          → 3 ≤ 4 * q + weight (chosen unit)
      enough zero e f = ground arith
      enough (suc q) e f = omega arith

  round_whole :
      4 * m + unit.unsigned_divisor
      ≡ (4 * r.q + weight (chosen unit) - 3) * unit.unsigned_divisor
        + (4 * r.v - weight (chosen unit) * unit.unsigned_divisor)
  round_whole =
      let d = unit.unsigned_divisor in
      let w = weight (chosen unit) in
      let fits = chosen-Fits unit m r in
      let q' = 4 * r.q + w - 3 in
      let e : q' + 3 ≡ 4 * r.q + w = omega (arith, enough_digits) in
      omega (arith, ap (λ (t : ℕ). t * d) e, r.whole)

-- A round multiplies what is left by four and keeps the state of the iteration.
pub round-Running : (unit : Div) (m : ℕ) → Running unit m → Running (round unit) (4 * m)
unfolding loop
round-Running unit m r =
    let w = weight (chosen unit) in
    record {
      q = 4 * r.q + w - 3;
      v = 4 * r.v - w * unit.unsigned_divisor;
      residual = round-Residual unit m r;
      converted =
          next_quotient-Converted (chosen unit) r.q (4 * r.q + w - 3) unit.reg_a unit.reg_b
            r.converted (omega (arith, enough_digits unit m r));
      whole = round_whole unit m r;
      slice = r.slice;
      slice3 = r.slice3;
    }
