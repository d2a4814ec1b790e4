-- ===== src/Div/Result.antt =====
-- `DIV::calculateResult` of src/DIV/DIV.cpp: the registers after the last round hold the quotient and
-- the remainder.
use native.Mathlib.Nat.{
  add-mul-div_right, div-eq_of_lt, mul-div-mul_right, div-add-mod', mul-div_cancel, one-le-pow,
  div-le_self, mod-le,
}
use rv32im_simulator.Prelude.{
  ℕ, zero, suc, ◌+◌, ◌-◌, ◌*◌, ◌/◌, ◌%◌, ◌^◌, ◌<◌, ◌≤◌, ◌≡◌, refl, ◌∙◌, u64, ◌<<<◌, ◌==◌, sym, Bool,
  true, false, if◌then◌else◌, ap, arith, ◌>>>◌, u32,
}
use native.Mathlib.Decide.{dec_lt}
use rv32im_simulator.Div.{Div}
use rv32im_simulator.Div.Iterate.{full_sum, calculate_result}
use rv32im_simulator.Div.Digit.{Aligned, Residual}
use rv32im_simulator.Div.Round.{Running}

full_sum-Residual :
    (shift_d : Bool) (d v s c : ℕ)
    → Residual shift_d d v s c
    → (d ≤ v → full_sum shift_d s c ≡ 4 * (v - d))
      × (v < d → full_sum shift_d s c + 4 * (d - v) ≡ 2 ^ 64)
unfolding full_sum
full_sum-Residual true d v s c r = ground arith
full_sum-Residual false d v s c r = ground arith

-- By what both operands are scaled.
abbrev pub scale : Bool → ℕ → ℕ
scale shift_d places = 2 ^ places * (if shift_d then 2 else 1)

-- A quotient and a remainder of scaled numbers.
unscaled :
    (x d k q r : ℕ)
    → 0 < d
    → 0 < k
    → x * k ≡ q * (d * k) + r
    → r < d * k
    → (q ≡ x / d) × (r ≡ x % d * k)
unscaled x d k q r h l e m =
    let e' : x * k ≡ r + q * (d * k) = omega arith in
    let quotient : x / d ≡ q =
      sym (mul-div-mul_right x d l)
      ∙ ap (λ t. t / (d * k)) e'
      ∙ add-mul-div_right r q {z = d * k} (omega arith)
      ∙ omega (arith, div-eq_of_lt m) in
    (
      sym quotient,
      omega (arith, ap (λ (t : ℕ). t * k) (div-add-mod' x d), ap (λ (t : ℕ). t * d * k) quotient),
    )

scale_pos : (shift_d : Bool) (places : ℕ) → 0 < scale shift_d places
scale_pos true places = omega (arith, one-le-pow places 2 (omega arith))
scale_pos false places = omega (arith, one-le-pow places 2 (omega arith))

shifted_back :
    (shift_d : Bool) (places y : ℕ)
    → (((4 * (y * scale shift_d places)) >>> 2) >>> (if shift_d then 1 else 0)) >>> places ≡ y
shifted_back true places y =
    let p = 2 ^ places in
    let e : 4 * (y * (p * 2)) / 2 ^ 2 / 2 ^ 1 ≡ y * p = omega arith in
    rw e (mul-div_cancel y {n = p} (one-le-pow places 2 (omega arith)))
shifted_back false places y =
    let p = 2 ^ places in
    let e : 4 * (y * (p * 1)) / 2 ^ 2 / 2 ^ 0 ≡ y * p = omega arith in
    rw e (mul-div_cancel y {n = p} (one-le-pow places 2 (omega arith)))

Aligned-lt : (shift_d : Bool) (d : ℕ) → Aligned shift_d d → d < 2 ^ 33
Aligned-lt true d a = omega arith
Aligned-lt false d a = omega arith

abbrev align_back : Div → ℕ → ℕ
align_back unit x = u32 (((x >>> 2) >>> (if unit.shift_d then 1 else 0)) >>> unit.clz_d)

abbrev pub finish : Div → Div
finish unit = calculate_result unit.reg_s unit.reg_c unit.reg_a unit.reg_b unit

-- The sum of the registers, whether it is negative, and the sum that a divisor restores.
module _ (unit : Div) (m : ℕ) (r : Running unit m) where
  pk : ℕ
  pk = full_sum unit.shift_d unit.reg_s unit.reg_c

  positive_sum :
      unit.unsigned_divisor ≤ r.v
      → ((pk >>> 63 == 0) ≡ true) × (pk ≡ 4 * (r.v - unit.unsigned_divisor))
  unfolding pk
  positive_sum h = ground (
    arith,
    full_sum-Residual unit.shift_d unit.unsigned_divisor r.v unit.reg_s unit.reg_c r.residual,
    Aligned-lt unit.shift_d unit.unsigned_divisor r.residual.aligned,
  )

  negative_sum :
      r.v < unit.unsigned_divisor
      → ((pk >>> 63 == 0) ≡ false) × (u64 (pk + u64 (unit.unsigned_divisor <<< 2)) ≡ 4 * r.v)
  unfolding pk
  negative_sum h = ground (
    arith,
    full_sum-Residual unit.shift_d unit.unsigned_divisor r.v unit.reg_s unit.reg_c r.residual,
    Aligned-lt unit.shift_d unit.unsigned_divisor r.residual.aligned,
  )

  finish_positive :
      unit.unsigned_divisor ≤ r.v
      → ((finish unit).quotient ≡ unit.reg_a)
        × ((finish unit).remain ≡ align_back unit (4 * (r.v - unit.unsigned_divisor)))
  unfolding calculate_result pk
  finish_positive h = rw ((positive_sum h).0, (positive_sum h).1) (refl, refl)

  finish_negative :
      r.v < unit.unsigned_divisor
      → ((finish unit).quotient ≡ unit.reg_b) × ((finish unit).remain ≡ align_back unit (4 * r.v))
  unfolding calculate_result pk
  finish_negative h = rw ((negative_sum h).0, (negative_sum h).1) (refl, refl)

div_lt_word : (x d : ℕ) → 0 < d → x < 2 ^ 32 → (x / d < 2 ^ 32) × (x % d < 2 ^ 32)
div_lt_word x d h k = omega (arith, div-le_self x d, mod-le x d)

align_back-scale :
    (unit : Div) (y : ℕ)
    → y < 2 ^ 32
    → align_back unit (4 * (y * scale unit.shift_d unit.clz_d)) ≡ y
align_back-scale unit y h = rw (shifted_back unit.shift_d unit.clz_d y) (omega arith)

-- With a negative last remainder there is a digit to take back.
restored : (n q d v : ℕ) → n + d ≡ q * d + v → v < d → (0 < q) × (n ≡ (q - 1) * d + v)
restored n zero d v e h = omega arith
restored n (suc q) d v e h = let back : suc q - 1 ≡ q = omega arith in rw back (omega arith)

-- With the divisor scaled like the dividend, the results are the quotient and the remainder.
module _ (unit : Div) (x d : ℕ) (r : Running unit (x * scale unit.shift_d unit.clz_d))
    (e : unit.unsigned_divisor ≡ d * scale unit.shift_d unit.clz_d) (h : 0 < d)
    (l : x < 2 ^ 32) where
  divides_positive :
      unit.unsigned_divisor ≤ r.v
      → ((finish unit).quotient ≡ x / d) × ((finish unit).remain ≡ x % d)
  divides_positive above =
      let k = scale unit.shift_d unit.clz_d in
      let small = div_lt_word x d h l in
      let split =
        unscaled x d k r.q (r.v - unit.unsigned_divisor) h (scale_pos unit.shift_d unit.clz_d)
          (omega (arith, r.whole, ap (λ (t : ℕ). r.q * t) e))
          (omega (arith, r.residual.high, r.residual.low)) in
      let done = finish_positive unit _ r above in
      (
        omega (arith, done.0, split.0, small.0, r.converted.exact),
        done.1 ∙ ap (λ t. align_back unit (4 * t)) split.1 ∙ align_back-scale unit (x % d) small.1,
      )

  divides_negative :
      r.v < unit.unsigned_divisor
      → ((finish unit).quotient ≡ x / d) × ((finish unit).remain ≡ x % d)
  divides_negative below =
      let k = scale unit.shift_d unit.clz_d in
      let small = div_lt_word x d h l in
      let back = restored (x * k) r.q unit.unsigned_divisor r.v r.whole below in
      let split =
        unscaled x d k (r.q - 1) r.v h (scale_pos unit.shift_d unit.clz_d)
          (omega (arith, back.1, ap (λ (t : ℕ). (r.q - 1) * t) e)) (omega (arith, e)) in
      let done = finish_negative unit _ r below in
      (
        omega (arith, done.0, split.0, small.0, r.converted.less back.0, r.converted.below),
        done.1 ∙ ap (λ t. align_back unit (4 * t)) split.1 ∙ align_back-scale unit (x % d) small.1,
      )

  pub finish_divides : ((finish unit).quotient ≡ x / d) × ((finish unit).remain ≡ x % d)
  finish_divides = elim (dec_lt r.v unit.unsigned_divisor) [
    | yes below ↦ divides_negative below
    | no above ↦ divides_positive (omega arith)
  ]
