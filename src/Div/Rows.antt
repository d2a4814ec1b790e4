-- ===== src/Div/Rows.antt =====
-- The rows of adders and the appended digits of `DIV::loop` in src/DIV/DIV.cpp as sums.
use rv32im_simulator.Prelude.{
  ℕ, ◌+◌, ◌-◌, ◌*◌, ◌%◌, ◌^◌, ◌<◌, ◌≡◌, Bool, true, false, bit_xor, arith,
}
use rv32im_simulator.Prelude.Bits.{
  majority, full_adder, half_adder, bit_xor-mask, bit_or_one, bit_or_two,
}
use rv32im_simulator.Div.Iterate.{width, subtract_row, add_row, keep_row, append_digits}

-- Equal in the registers of the remainder.
abbrev pub SameWidth : Bool → ℕ → ℕ → Type 0
SameWidth shift_d x y = x % 2 ^ width shift_d ≡ y % 2 ^ width shift_d

module _ (s c t : ℕ) where
  pub subtract_sum :
      (shift_d : Bool)
      → t < 2 ^ width shift_d
      → let row = subtract_row (width shift_d) s c t in
        SameWidth shift_d (row.0 + row.1 + t) (s + c)
  unfolding subtract_row
  subtract_sum true h =
      let t' = bit_xor (2 ^ 36 - 1) t in
      omega (arith, full_adder s c t', bit_xor-mask 36 t h, bit_or_one (majority s c t'))
  subtract_sum false h =
      let t' = bit_xor (2 ^ 35 - 1) t in
      omega (arith, full_adder s c t', bit_xor-mask 35 t h, bit_or_one (majority s c t'))

  pub add_sum :
      (shift_d : Bool)
      → let row = add_row (width shift_d) s c t in SameWidth shift_d (row.0 + row.1) (s + c + t)
  unfolding add_row
  add_sum true = omega (arith, full_adder s c t)
  add_sum false = omega (arith, full_adder s c t)

pub keep_sum :
    (s c : ℕ) (shift_d : Bool)
    → let row = keep_row (width shift_d) s c in SameWidth shift_d (row.0 + row.1) (s + c)
unfolding keep_row
keep_sum s c true = omega (arith, half_adder s c)
keep_sum s c false = omega (arith, half_adder s c)

pub append_digits_sum :
    (x digits : ℕ) → digits < 4 → append_digits x digits ≡ (x * 4 + digits) % 2 ^ 32
unfolding append_digits
append_digits_sum x digits h =
    let shifted : (x * 4) % 2 ^ 32 ≡ x % 2 ^ 30 * 4 = omega arith in
    rw shifted (omega (arith, bit_or_two (x % 2 ^ 30) digits h))
