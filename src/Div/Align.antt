-- ===== src/Div/Align.antt =====
-- The alignment of `DIV::prepare` in src/DIV/DIV.cpp and the number of rounds it asks for.
use native.Mathlib.Nat.{pow-suc, pow-le-pow_right, mul-le-mul_left, mul-le-mul_right}
use rv32im_simulator.Prelude.{
  ℕ, zero, suc, ◌+◌, ◌-◌, ◌*◌, ◌/◌, ◌%◌, ◌^◌, ◌<◌, ◌≤◌, ◌≡◌, refl, ap, ◌∙◌, Bool, true, false, not,
  ◌==◌, u8, u64, ◌<<<◌, if◌then◌else◌, arith,
}
use native.Mathlib.Decide.{dec_lt}
use rv32im_simulator.Div.{Div}
use rv32im_simulator.Div.Clz.{clz}
use rv32im_simulator.Div.Normal.{clz_normal}
use rv32im_simulator.Div.Iterate.{Digit, first_registers, prepare}
use rv32im_simulator.Div.Result.{scale}
use rv32im_simulator.Div.Clock.{Counting, Flags}

-- The rounds after the first digit.
abbrev pub rounds_of : ℕ → ℕ → ℕ
rounds_of x d = (clz d + 1 - clz x) / 2

-- A smaller number has at least as many leading zeros.
clz_antitone : (x d : ℕ) → 0 < d → d < x → x < 2 ^ 32 → clz x ≤ clz d
clz_antitone x d h k l = elim (dec_lt (clz d) (clz x)) [
  | no le ↦ omega arith
  | yes lt ↦
      let powers : 2 ^ suc (clz d) ≤ 2 ^ clz x =
        pow-le-pow_right {n = 2} (omega arith) {i = suc (clz d)} {j = clz x} (omega arith) in
      let doubled : 2 * 2 ^ clz d ≤ 2 ^ clz x = omega (arith, pow-suc 2 (clz d)) in
      let scaled : x * (2 * 2 ^ clz d) ≤ x * 2 ^ clz x = mul-le-mul_left x doubled in
      let smaller : d * 2 ^ clz d ≤ x * 2 ^ clz d = mul-le-mul_right (2 ^ clz d) (omega arith) in
      omega (arith, clz_normal x (omega arith) l, clz_normal d h (omega arith))
]

-- Each round stands for two binary places, and the extra shift makes their number even.
four_places :
    (x z n : ℕ) → x * 2 ^ z * 4 ^ ((n + 1) / 2) ≡ x * (2 ^ (z + n) * (if n % 2 == 1 then 2 else 1))
four_places x z zero = let e : z + 0 ≡ z = omega arith in rw e (omega arith)
four_places x z (suc zero) =
    let e : z + 1 ≡ suc z = omega arith in rw (e, pow-suc 2 z) (omega arith)
four_places x z (suc (suc n)) =
    let rounds : (suc (suc n) + 1) / 2 ≡ suc ((n + 1) / 2) = omega arith in
    let parity : suc (suc n) % 2 ≡ n % 2 = omega arith in
    let places : z + suc (suc n) ≡ suc (suc (z + n)) = omega arith in
    rw (rounds, parity, places, pow-suc 4 ((n + 1) / 2), pow-suc 2 (suc (z + n)), pow-suc 2 (z + n))
      (omega (arith, four_places x z n))

-- The counts of leading zeros of the two operands.
counts :
    (x d : ℕ)
    → 0 < d
    → d < x
    → x < 2 ^ 32
    → (clz x ≤ clz d) × (clz d ≤ 31) × (x * 2 ^ clz x < 2 ^ 32) × (d * 2 ^ clz d < 2 ^ 32)
counts x d h k l =
    let normal_x = clz_normal x (omega arith) l in
    let normal_d = clz_normal d h (omega arith) in
    (clz_antitone x d h k l, normal_d.0, normal_x.2, normal_d.2)

module _ (unit : Div) where
  -- The first digit changes the registers of the iteration only.
  first_registers_kept :
      (digit : Digit) (p d : ℕ)
      → ((first_registers digit p d unit).operation_type ≡ unit.operation_type)
        × ((first_registers digit p d unit).rob_tag ≡ unit.rob_tag)
        × ((first_registers digit p d unit).is_result_negative ≡ unit.is_result_negative)
        × ((first_registers digit p d unit).is_dividend_negative ≡ unit.is_dividend_negative)
        × ((first_registers digit p d unit).result_valid ≡ unit.result_valid)
  unfolding first_registers
  first_registers_kept digit p d = ground arith

  pub prepare_kept :
      ((prepare unit).operation_type ≡ unit.operation_type)
      × ((prepare unit).rob_tag ≡ unit.rob_tag)
      × ((prepare unit).is_result_negative ≡ unit.is_result_negative)
      × ((prepare unit).is_dividend_negative ≡ unit.is_dividend_negative)
      × ((prepare unit).result_valid ≡ unit.result_valid)
  unfolding prepare
  prepare_kept = first_registers_kept _ _ _

  prepare_times :
      let x = unit.unsigned_dividend in
      let d = unit.unsigned_divisor in
      0 < d → d < x → x < 2 ^ 32 → (prepare unit).loop_times ≡ rounds_of x d
  unfolding prepare
  prepare_times h k l = omega (arith, counts unit.unsigned_dividend unit.unsigned_divisor h k l)

  prepare-Flags :
      (n : ℕ)
      → (prepare unit).loop_times ≡ n
      → unit.result_valid ≡ false
      → Flags (prepare unit) false (not (n == 0)) (n == 0) false
  unfolding prepare
  prepare-Flags n e r = record {
    prepare_flag = refl;
    loop_flag = ap (λ t. not (t == 0)) e;
    adder_flag = ap (λ t. t == 0) e;
    result_flag = prepare_kept.4 ∙ r;
  }

scaled_divisor :
    (shift_d : Bool) (d p : ℕ)
    → d * p < 2 ^ 32
    → ((d * p) % 2 ^ 64 * 2 ^ (if shift_d then 1 else 0)) % 2 ^ 64
      ≡ d * (p * (if shift_d then 2 else 1))
scaled_divisor true d p h = omega arith
scaled_divisor false d p h = omega arith

module _ (unit : Div) (h : 0 < unit.unsigned_divisor)
    (k : unit.unsigned_divisor < unit.unsigned_dividend) (l : unit.unsigned_dividend < 2 ^ 32) where
  pub prepare-Counting :
      unit.result_valid ≡ false
      → Counting (prepare unit) (rounds_of unit.unsigned_dividend unit.unsigned_divisor)
  prepare-Counting r =
      let x = unit.unsigned_dividend in
      let d = unit.unsigned_divisor in
      let times = prepare_times unit h k l in
      record {
        times = times;
        few = omega (arith, counts x d h k l);
        flags = prepare-Flags unit _ times r;
      }

  pub prepare_scales :
      let x = unit.unsigned_dividend in
      let d = unit.unsigned_divisor in
      let next = prepare unit in
      (u64 (x <<< u8 (clz x)) * 4 ^ rounds_of x d ≡ x * scale next.shift_d next.clz_d)
      × (next.unsigned_divisor ≡ d * scale next.shift_d next.clz_d)
  unfolding prepare
  prepare_scales =
      let x = unit.unsigned_dividend in
      let d = unit.unsigned_divisor in
      let c = counts x d h k l in
      let n = clz d - clz x in
      let small_x : clz x % 2 ^ 8 ≡ clz x = omega arith in
      let small_d : clz d % 2 ^ 8 ≡ clz d = omega arith in
      let fits : x * 2 ^ clz x % 2 ^ 64 ≡ x * 2 ^ clz x = omega arith in
      let parity : (clz d + 512 - clz x) % 2 ≡ n % 2 = omega arith in
      let rounds : rounds_of x d ≡ (n + 1) / 2 = omega arith in
      let places : clz x + n ≡ clz d = omega arith in
      (
        rw (small_x, small_d, fits, parity, rounds) (rw places at (four_places x (clz x) n)),
        rw (small_x, small_d) (scaled_divisor _ d (2 ^ clz d) c.3),
      )
