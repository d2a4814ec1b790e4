-- ===== src/Div/Iterated.antt =====
-- The iteration of src/DIV/DIV.cpp as a whole, from `start` to the value that `getValue` returns.
use native.Mathlib.Nat.{div-le_self, mod-le}
use rv32im_simulator.Prelude.{
  ℕ, ◌+◌, ◌*◌, ◌/◌, ◌%◌, ◌^◌, ◌<◌, ◌≡◌, refl, sym, ap, ap₂, u8, u64, ◌<<<◌, [], ◌∷◌, ◌∙◌, Bool,
  true, false, not, if◌then◌else◌, is_negative, Option, none, some, List, length, arith,
}
use rv32im_simulator.Types.{Operation, div, divu, rem, remu}
use rv32im_simulator.Div.{
  Div, start, receive, is_signed_op, get_value, special_case, magnitude, same_bool, negate32,
}
use rv32im_simulator.Div.{finish as finish_now}
use rv32im_simulator.Div.Clz.{clz}
use rv32im_simulator.Div.Iterate.{DivInput, prepare, calculate_result}
use rv32im_simulator.Div.Round.{Running}
use rv32im_simulator.Div.First.{prepare-Running}
use rv32im_simulator.Div.Result.{scale, finish, finish_divides}
use rv32im_simulator.Div.Clock.{
  Flags, AllQuiet, run, rounds, rounds-Kept, rounds-Running, run-finish, tick-prepare,
}
use rv32im_simulator.Div.Align.{rounds_of, prepare_kept, prepare-Counting, prepare_scales}
use mathlib.Core.Path.{subst}
use rv32im_simulator.Div.Special.{IsDivide, is_div, is_divu, is_rem, is_remu, defined}

-- The sign that `DIV::getValue` gives back is the one that RISC-V defines.
signed_quotient :
    (a b : ℕ)
    → a < 2 ^ 32
    → b < 2 ^ 32
    → 0 < b
    → (if not (same_bool (is_negative b) (is_negative a))
        then negate32 (magnitude a / magnitude b)
        else magnitude a / magnitude b)
      ≡ defined div a b
signed_quotient a b ha hb h = ground (arith, div-le_self (magnitude a) (magnitude b))

signed_remainder :
    (a b : ℕ)
    → a < 2 ^ 32
    → b < 2 ^ 32
    → 0 < b
    → (if is_negative a then negate32 (magnitude a % magnitude b) else magnitude a % magnitude b)
      ≡ defined rem a b
signed_remainder a b ha hb h = ground (arith, mod-le (magnitude a) (magnitude b))

-- The sizes of the operands as the unit takes them.
abbrev pub size_of : Operation → ℕ → ℕ
size_of op a = if is_signed_op op then magnitude a else a

-- What an operation that is not finished at once leaves for the iteration.
module _ (a b tag : ℕ) (unit : Div) where
  pub start_sizes :
      {op : Operation}
      → IsDivide op
      → a < 2 ^ 32
      → b < 2 ^ 32
      → ((start a b tag op unit).unsigned_dividend ≡ size_of op a)
        × ((start a b tag op unit).unsigned_divisor ≡ size_of op b)
        × (size_of op a < 2 ^ 32)
        × (0 < b → 0 < size_of op b)
  unfolding start
  start_sizes is_div ha hb = ground arith
  start_sizes is_divu ha hb = ground arith
  start_sizes is_rem ha hb = ground arith
  start_sizes is_remu ha hb = ground arith

  pub start-Flags :
      (op : Operation)
      → Flags unit false false false false
      → Flags (start a b tag op unit) true false false false
  unfolding start
  start-Flags op f = record {
    prepare_flag = refl;
    loop_flag = f.loop_flag;
    adder_flag = f.adder_flag;
    result_flag = refl;
  }

  pub start_tags :
      (op : Operation)
      → ((start a b tag op unit).operation_type ≡ op) × ((start a b tag op unit).rob_tag ≡ tag)
  unfolding start
  start_tags op = (refl, refl)

pub receive-start :
    (op : Operation) (a b tag : ℕ) (unit : Div)
    → special_case op a b ≡ none
    → receive a b tag op unit ≡ start a b tag op unit
unfolding receive
receive-start op a b tag unit e =
    ap (λ o. elim o [ some (q, r) ↦ finish_now q r tag op unit | none ↦ start a b tag op unit ]) e

-- `DIV::getValue` over the fields that it reads.
unfoldable pub value_of :
    Operation → (quotient remain : ℕ) → (result_negative dividend_negative : Bool) → Option ℕ
value_of div q r n m = some (if n then negate32 q else q)
value_of divu q r n m = some q
value_of rem q r n m = some (if m then negate32 r else r)
value_of remu q r n m = some r
value_of _ q r n m = none

pub get_value-value_of :
    (unit : Div) {op : Operation}
    → IsDivide op
    → unit.operation_type ≡ op
    → get_value unit
      ≡ value_of op unit.quotient unit.remain unit.is_result_negative unit.is_dividend_negative
unfolding get_value value_of
get_value-value_of unit is_div e = rw e refl
get_value-value_of unit is_divu e = rw e refl
get_value-value_of unit is_rem e = rw e refl
get_value-value_of unit is_remu e = rw e refl

pub value_defined :
    (a b tag : ℕ) (unit : Div) {op : Operation}
    → IsDivide op
    → a < 2 ^ 32
    → b < 2 ^ 32
    → 0 < b
    → let s = start a b tag op unit in
      value_of op
        (size_of op a / size_of op b)
        (size_of op a % size_of op b)
        s.is_result_negative
        s.is_dividend_negative
      ≡ some (defined op a b)
unfolding value_of start
value_defined a b tag unit is_div ha hb h = ap some (signed_quotient a b ha hb h)
value_defined a b tag unit is_rem ha hb h = ap some (signed_remainder a b ha hb h)
value_defined a b tag unit is_divu ha hb h = ground arith
value_defined a b tag unit is_remu ha hb h = ground arith

pub finish_kept :
    (unit : Div)
    → ((finish unit).result_valid ≡ true)
      × ((finish unit).operation_type ≡ unit.operation_type)
      × ((finish unit).rob_tag ≡ unit.rob_tag)
      × ((finish unit).is_result_negative ≡ unit.is_result_negative)
      × ((finish unit).is_dividend_negative ≡ unit.is_dividend_negative)
unfolding calculate_result
finish_kept unit = (refl, refl, refl, refl, refl)

-- The iteration from its first digit to its results.
abbrev pub iterated : Div → Div
iterated unit =
    finish (rounds (rounds_of unit.unsigned_dividend unit.unsigned_divisor) (prepare unit))

module _ (unit : Div) (h : 0 < unit.unsigned_divisor)
    (k : unit.unsigned_divisor < unit.unsigned_dividend) (l : unit.unsigned_dividend < 2 ^ 32) where
  pub iterated_divides :
      ((iterated unit).quotient ≡ unit.unsigned_dividend / unit.unsigned_divisor)
      × ((iterated unit).remain ≡ unit.unsigned_dividend % unit.unsigned_divisor)
  iterated_divides =
      let x = unit.unsigned_dividend in
      let d = unit.unsigned_divisor in
      let n = rounds_of x d in
      let next = prepare unit in
      let last = rounds n next in
      let scales = prepare_scales unit h k l in
      let kept = rounds-Kept n next in
      let same : scale next.shift_d next.clz_d ≡ scale last.shift_d last.clz_d =
        ap₂ scale (sym kept.5) (sym kept.4) in
      let running : Running last (x * scale last.shift_d last.clz_d) =
        subst (Running last) (scales.0 ∙ ap (λ (t : ℕ). x * t) same)
          (rounds-Running n (u64 (x <<< u8 (clz x))) next (prepare-Running unit h k l)) in
      finish_divides last x d running (kept.6 ∙ scales.1 ∙ ap (λ (t : ℕ). d * t) same) h l

  pub iterated_kept :
      ((iterated unit).operation_type ≡ unit.operation_type)
      × ((iterated unit).rob_tag ≡ unit.rob_tag)
      × ((iterated unit).is_result_negative ≡ unit.is_result_negative)
      × ((iterated unit).is_dividend_negative ≡ unit.is_dividend_negative)
  iterated_kept =
      let n = rounds_of unit.unsigned_dividend unit.unsigned_divisor in
      let first = prepare_kept unit in
      let middle = rounds-Kept n (prepare unit) in
      let last = finish_kept (rounds n (prepare unit)) in
      (
        last.1 ∙ middle.0 ∙ first.0,
        last.2 ∙ middle.1 ∙ first.1,
        last.3 ∙ middle.2 ∙ first.2,
        last.4 ∙ middle.3 ∙ first.3,
      )

  -- A tick for the first digit, one for each round and one for the addition.
  pub run-iterated :
      (inputs : List DivInput)
      → AllQuiet inputs
      → length inputs ≡ 2 + rounds_of unit.unsigned_dividend unit.unsigned_divisor
      → Flags unit true false false false
      → run inputs unit ≡ iterated unit
  run-iterated [] q e f = absurd (omega arith)
  run-iterated (input ∷ rest) q e f = rw (tick-prepare input unit q.0 f) (
      run-finish (rounds_of unit.unsigned_dividend unit.unsigned_divisor) rest (prepare unit) q.1
        (omega arith) (prepare-Counting unit h k l f.result_flag))
