-- ===== src/Div/Normal.antt =====
-- `clz` of src/DIV/DIV.cpp moves the highest one of a word to the top of 32 bits.
use native.Mathlib.Nat.{pow-suc}
use rv32im_simulator.Prelude.{ℕ, zero, suc, ◌+◌, ◌-◌, ◌*◌, ◌^◌, ◌<◌, ◌≤◌, ◌≡◌, ap, arith}
use rv32im_simulator.Div.Clz.{halve, clz}

-- After the tests down to `bits` the number left has at most so many bits, and the zeros counted
-- move the word to where that number is its upper part.
record Window (x bits : ℕ) (left : ℕ × ℕ) : Type 0 where
  positive : 0 < left.0
  small : left.0 < 2 ^ bits
  place : left.1 ≤ 32 - bits
  lower : left.0 * 2 ^ (32 - bits) ≤ x * 2 ^ left.1
  upper : x * 2 ^ left.1 < (left.0 + 1) * 2 ^ (32 - bits)

halve-Window16 : (x : ℕ) → 0 < x → x < 2 ^ 32 → Window x 16 (halve 16 (x, 0))
unfolding halve
halve-Window16 x h k = ground arith

mul_pow_add : (x z k : ℕ) → x * 2 ^ (z + k) ≡ x * 2 ^ z * 2 ^ k
mul_pow_add x z zero = let e : z + 0 ≡ z = omega arith in rw e (omega arith)
mul_pow_add x z (suc k) =
    let e : z + suc k ≡ suc (z + k) = omega arith in
    rw e (
      omega (
        arith,
        mul_pow_add x z k,
        ap (λ (t : ℕ). x * t) (pow-suc 2 (z + k)),
        ap (λ (t : ℕ). x * 2 ^ z * t) (pow-suc 2 k),
      ))

module _ (x : ℕ) (left : ℕ × ℕ) where
  halve-Window8 : Window x 16 left → Window x 8 (halve 8 left)
  unfolding halve
  halve-Window8 w = ground (arith, mul_pow_add x left.1 8)

  halve-Window4 : Window x 8 left → Window x 4 (halve 4 left)
  unfolding halve
  halve-Window4 w = ground (arith, mul_pow_add x left.1 4)

  halve-Window2 : Window x 4 left → Window x 2 (halve 2 left)
  unfolding halve
  halve-Window2 w = ground (arith, mul_pow_add x left.1 2)

  halve-Window1 : Window x 2 left → Window x 1 (halve 1 left)
  unfolding halve
  halve-Window1 w = ground (arith, mul_pow_add x left.1 1)

last-Window :
    (x : ℕ)
    → 0 < x
    → x < 2 ^ 32
    → Window x 1 (halve 1 (halve 2 (halve 4 (halve 8 (halve 16 (x, 0))))))
last-Window x h k =
    halve-Window1 x _
      (halve-Window2 x _ (halve-Window4 x _ (halve-Window8 x _ (halve-Window16 x h k))))

-- A word that is not zero, moved up by its leading zeros, has the highest of 32 bits set.
pub clz_normal :
    (x : ℕ)
    → 0 < x
    → x < 2 ^ 32
    → (clz x ≤ 31) × (2 ^ 31 ≤ x * 2 ^ clz x) × (x * 2 ^ clz x < 2 ^ 32)
unfolding clz
clz_normal x h k = ground (arith, last-Window x h k)
