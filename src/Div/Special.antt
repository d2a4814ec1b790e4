-- ===== src/Div/Special.antt =====
-- The special cases of `DIV::receive` in src/DIV/DIV.cpp, and the words that RISC-V defines.
use native.Mathlib.Nat.{div-eq_of_lt, mod-eq_of_lt, div_self, mod_self}
use rv32im_simulator.Prelude.{
  ℕ, ◌+◌, ◌-◌, ◌/◌, ◌%◌, ◌^◌, ◌<◌, ◌==◌, ◌≡◌, refl, ap, Bool, true, false, some, none,
  if◌then◌else◌, arith,
}
use rv32im_simulator.Prelude.Int.{ℤ, pos, negsuc, pos_part, neg_part, sub_ℕ, signed32, to_word}
use rv32im_simulator.Types.{Operation, div, divu, rem, remu}
use rv32im_simulator.Div.{
  Div, special_case, magnitude, is_quotient_op, is_signed_op, receive, get_value, finish, start,
}

pub data IsDivide : Operation → Type 0 where
  is_div : IsDivide div
  is_divu : IsDivide divu
  is_rem : IsDivide rem
  is_remu : IsDivide remu

-- The size of an integer.
abbrev size : ℤ → ℕ
size x = pos_part x + neg_part x

abbrev below_zero : ℤ → Bool
below_zero (pos n) = false
below_zero (negsuc n) = true

-- Quotient and remainder of integers, rounded towards zero: the remainder has the dividend's sign.
abbrev trunc_div : ℤ → ℤ → ℤ
trunc_div (pos n) y = if below_zero y then sub_ℕ 0 (n / size y) else pos (n / size y)
trunc_div (negsuc n) y = if below_zero y then pos ((n + 1) / size y) else sub_ℕ 0 ((n + 1) / size y)

abbrev trunc_mod : ℤ → ℤ → ℤ
trunc_mod (pos n) y = pos (n % size y)
trunc_mod (negsuc n) y = sub_ℕ 0 ((n + 1) % size y)

-- The word that the instruction defines: a division by zero gives all ones, its remainder is the
-- dividend.
abbrev pub defined : Operation → ℕ → ℕ → ℕ
defined divu a b = if b == 0 then 2 ^ 32 - 1 else a / b
defined remu a b = if b == 0 then a else a % b
defined div a b = if b == 0 then 2 ^ 32 - 1 else to_word (trunc_div (signed32 a) (signed32 b))
defined rem a b = if b == 0 then a else to_word (trunc_mod (signed32 a) (signed32 b))
defined _ a b = 0

-- The numbers that a quotient of sizes can be in a special case.
quotients :
    (x d : ℕ) → (x < d → (x / d ≡ 0) × (x % d ≡ x)) × (x ≡ d → 0 < d → (x / d ≡ 1) × (x % d ≡ 0))
quotients x d =
    (λ h. (div-eq_of_lt h, mod-eq_of_lt h), λ e h. rw e (div_self (omega arith), mod_self d))

special_divu :
    (a b q r : ℕ)
    → a < 2 ^ 32
    → b < 2 ^ 32
    → special_case divu a b ≡ some (q, r)
    → q ≡ defined divu a b
unfolding special_case
special_divu a b q r ha hb e = ground (arith, (quotients a b).0, (quotients a b).1)

special_div :
    (a b q r : ℕ)
    → a < 2 ^ 32
    → b < 2 ^ 32
    → special_case div a b ≡ some (q, r)
    → q ≡ defined div a b
unfolding special_case
special_div a b q r ha hb e =
    ground
      (arith, (quotients (magnitude a) (magnitude b)).0, (quotients (magnitude a) (magnitude b)).1)

special_remu :
    (a b q r : ℕ)
    → a < 2 ^ 32
    → b < 2 ^ 32
    → special_case remu a b ≡ some (q, r)
    → r ≡ defined remu a b
unfolding special_case
special_remu a b q r ha hb e = ground (arith, (quotients a b).0, (quotients a b).1)

special_rem :
    (a b q r : ℕ)
    → a < 2 ^ 32
    → b < 2 ^ 32
    → special_case rem a b ≡ some (q, r)
    → r ≡ defined rem a b
unfolding special_case
special_rem a b q r ha hb e =
    ground
      (arith, (quotients (magnitude a) (magnitude b)).0, (quotients (magnitude a) (magnitude b)).1)

-- What the unit answers after an operation that finished at once.
value_finish :
    (op : Operation) (q r tag : ℕ) (unit : Div)
    → IsDivide op
    → get_value (finish q r tag op unit) ≡ some (if is_quotient_op op then q else r)
unfolding finish get_value
value_finish op q r tag unit is_div = refl
value_finish op q r tag unit is_divu = refl
value_finish op q r tag unit is_rem = refl
value_finish op q r tag unit is_remu = refl

result_finish :
    (op : Operation) (q r tag : ℕ) (unit : Div) → (finish q r tag op unit).result_valid ≡ true
unfolding finish
result_finish op q r tag unit = refl

special_defined :
    (op : Operation) (a b q r : ℕ)
    → IsDivide op
    → a < 2 ^ 32
    → b < 2 ^ 32
    → special_case op a b ≡ some (q, r)
    → (if is_quotient_op op then q else r) ≡ defined op a b
special_defined op a b q r is_div ha hb e = special_div a b q r ha hb e
special_defined op a b q r is_divu ha hb e = special_divu a b q r ha hb e
special_defined op a b q r is_rem ha hb e = special_rem a b q r ha hb e
special_defined op a b q r is_remu ha hb e = special_remu a b q r ha hb e

pub receive-finish :
    (op : Operation) (a b q r tag : ℕ) (unit : Div)
    → special_case op a b ≡ some (q, r)
    → receive a b tag op unit ≡ finish q r tag op unit
unfolding receive
receive-finish op a b q r tag unit e =
    ap (λ o. elim o [ some (q, r) ↦ finish q r tag op unit | none ↦ start a b tag op unit ]) e

-- A division or remainder of operands below 2 ^ 32 that is a special case has its result at once,
-- and it is the word that RISC-V defines.
pub receive_special :
    (op : Operation) (a b q r tag : ℕ) (unit : Div)
    → IsDivide op
    → a < 2 ^ 32
    → b < 2 ^ 32
    → special_case op a b ≡ some (q, r)
    → ((receive a b tag op unit).result_valid ≡ true)
      × (get_value (receive a b tag op unit) ≡ some (defined op a b))
receive_special op a b q r tag unit is ha hb e =
    rw
      (
        receive-finish op a b q r tag unit e,
        value_finish op q r tag unit is,
        special_defined op a b q r is ha hb e,
      )
      (result_finish op q r tag unit, refl)

-- When a division or remainder is no special case, the divisor is not zero and less than the
-- dividend, in size where the operation is signed.
pub special_case-none :
    (op : Operation) (a b : ℕ)
    → IsDivide op
    → special_case op a b ≡ none
    → (0 < b)
      × ((if is_signed_op op then magnitude b else b)
          < (if is_signed_op op then magnitude a else a))
unfolding special_case
special_case-none op a b is_div e = ground arith
special_case-none op a b is_divu e = ground arith
special_case-none op a b is_rem e = ground arith
special_case-none op a b is_remu e = ground arith
