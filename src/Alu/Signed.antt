-- ===== src/Alu/Signed.antt =====
-- What the operations of the integer unit mean for the numbers that their operands stand for.
use native.Mathlib.Nat.{div-le_self}
use rv32im_simulator.Prelude.{ℕ, ◌^◌, ◌<◌, ◌≡◌, if◌then◌else◌, low_bits, sra32, arith}
use rv32im_simulator.Prelude.Int.{◌+ℤ◌, ◌-ℤ◌, ltb_ℤ, signed32, to_word, floor_shift}
use rv32im_simulator.Types.{add, sub, slt, sra}
use rv32im_simulator.Alu.{calculate}

calculate-add :
    (a b : ℕ) → a < 2 ^ 32 → b < 2 ^ 32 → calculate add a b ≡ to_word (signed32 a +ℤ signed32 b)
unfolding calculate ◌+ℤ◌
calculate-add a b h k = ground arith

calculate-sub :
    (a b : ℕ) → a < 2 ^ 32 → b < 2 ^ 32 → calculate sub a b ≡ to_word (signed32 a -ℤ signed32 b)
unfolding calculate ◌-ℤ◌
calculate-sub a b h k = ground arith

calculate-slt :
    (a b : ℕ)
    → a < 2 ^ 32
    → b < 2 ^ 32
    → calculate slt a b ≡ (if ltb_ℤ (signed32 a) (signed32 b) then 1 else 0)
unfolding calculate
calculate-slt a b h k = ground arith

signed32-sra32 : (a k : ℕ) → a < 2 ^ 32 → signed32 (sra32 a k) ≡ floor_shift (signed32 a) k
signed32-sra32 a k h = ground (arith, div-le_self a (2 ^ k))

-- On operands below 2 ^ 32 the integer unit computes the sum and the difference of the signed
-- numbers modulo 2 ^ 32, compares their values, and shifts right by rounding down.
pub calculate_signed :
    (a b : ℕ)
    → a < 2 ^ 32
    → b < 2 ^ 32
    → (calculate add a b ≡ to_word (signed32 a +ℤ signed32 b))
      × (calculate sub a b ≡ to_word (signed32 a -ℤ signed32 b))
      × (calculate slt a b ≡ (if ltb_ℤ (signed32 a) (signed32 b) then 1 else 0))
      × (signed32 (calculate sra a b) ≡ floor_shift (signed32 a) (low_bits 5 b))
unfolding calculate
calculate_signed a b h k = (
  calculate-add a b h k,
  calculate-sub a b h k,
  calculate-slt a b h k,
  signed32-sra32 a (low_bits 5 b) h,
)
