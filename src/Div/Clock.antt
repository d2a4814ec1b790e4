-- ===== src/Div/Clock.antt =====
-- The ticks of the divider's stages in src/DIV/DIV.cpp while nothing is dispatched or squashed.
use rv32im_simulator.Prelude.{
  ℕ, zero, suc, ◌*◌, ◌^◌, ◌<◌, ◌≡◌, refl, sym, ap, Bool, true, false, not, ◌==◌, if◌then◌else◌,
  List, [], ◌∷◌, length, get_or, arith,
}
use native.Mathlib.Nat.{pow-suc}
use rv32im_simulator.Prf.{get_operand_value}
use rv32im_simulator.Rs.{Station, empty_station}
use rv32im_simulator.Div.{Div, receive}
use rv32im_simulator.Div.Iterate.{DivInput, loop, prepare, calculate_result, flush, tick}
use rv32im_simulator.Div.Round.{Running, round, round-Running}
use rv32im_simulator.Div.Result.{finish}

-- Neither a dispatch nor a squash in this tick.
abbrev pub IsQuiet : DivInput → Type 0
IsQuiet input = (input.dispatch.valid ≡ false) × (input.squash.need_squash ≡ false)

abbrev pub AllQuiet : List DivInput → Type 0
AllQuiet [] = Unit
AllQuiet (input ∷ rest) = IsQuiet input × AllQuiet rest

abbrev pub run : List DivInput → Div → Div
run [] unit = unit
run (input ∷ rest) unit = run rest (tick input unit)

-- The four flags of a unit.
pub record Flags (unit : Div) (preparing looping adding done : Bool) : Type 0 where
  pub prepare_flag : unit.prepare_valid ≡ preparing
  pub loop_flag : unit.loop_valid ≡ looping
  pub adder_flag : unit.full_adder_valid ≡ adding
  pub result_flag : unit.result_valid ≡ done

abbrev consumed : DivInput → Div → Div
consumed input old = if input.cdb_valid then record old { result_valid = false } else old

consumed_idle :
    (input : DivInput) (unit : Div) → unit.result_valid ≡ false → consumed input unit ≡ unit
consumed_idle input unit e = same input.cdb_valid
  where
    same : (b : Bool) → (if b then record unit { result_valid = false } else unit) ≡ unit
    same true = ap (λ b. record unit { result_valid = b }) (sym e)
    same false = refl

abbrev pub dispatched : DivInput → Station
dispatched input = get_or input.rs.divide_rs input.dispatch.rs_index empty_station

abbrev pub operand1 : DivInput → ℕ
operand1 input = get_operand_value input.prf (dispatched input).src1

abbrev pub operand2 : DivInput → ℕ
operand2 input = get_operand_value input.prf (dispatched input).src2

-- A tick with its tests as arguments.
staged : (adding looping preparing valid squashed : Bool) → DivInput → Div → Div → Div
staged adding looping preparing valid squashed input old sent =
    let added =
      if adding then calculate_result old.reg_s old.reg_c old.reg_a old.reg_b sent else sent in
    let looped = if looping then loop old.reg_s old.reg_c old.reg_a old.reg_b added else added in
    let prepared = if preparing then prepare looped else looped in
    let received =
      if valid
      then receive (operand1 input) (operand2 input) input.dispatch.rob_tag (dispatched input).op
          prepared
      else prepared in
    if squashed then flush input.squash.squash_tag received else received

tick-staged :
    (input : DivInput) (old : Div)
    → tick input old
      ≡ staged old.full_adder_valid old.loop_valid old.prepare_valid input.dispatch.valid
          input.squash.need_squash input old
          (consumed input old)
unfolding tick staged
tick-staged input old = refl

module _ (input : DivInput) (unit : Div) where
  tick-Flags :
      {valid adding looping preparing : Bool}
      → input.dispatch.valid ≡ valid
      → input.squash.need_squash ≡ false
      → Flags unit preparing looping adding false
      → tick input unit ≡ staged adding looping preparing valid false input unit unit
  tick-Flags d q f = cc (
    tick-staged input unit,
    consumed_idle input unit f.result_flag,
    f.prepare_flag,
    f.loop_flag,
    f.adder_flag,
  )

  tick-round : IsQuiet input → Flags unit false true false false → tick input unit ≡ round unit
  unfolding staged
  tick-round q f = tick-Flags q.0 q.1 f

  tick-finish : IsQuiet input → Flags unit false false true false → tick input unit ≡ finish unit
  unfolding staged
  tick-finish q f = tick-Flags q.0 q.1 f

  pub tick-prepare :
      IsQuiet input → Flags unit true false false false → tick input unit ≡ prepare unit
  unfolding staged
  tick-prepare q f = tick-Flags q.0 q.1 f

  pub tick-receive :
      input.dispatch.valid ≡ true
      → input.squash.need_squash ≡ false
      → Flags unit false false false false
      → tick input unit
        ≡ receive
            (operand1 input)
            (operand2 input)
            input.dispatch.rob_tag
            (dispatched input).op
            unit
  unfolding staged
  tick-receive d q f = tick-Flags d q f

abbrev pub rounds : ℕ → Div → Div
rounds zero unit = unit
rounds (suc n) unit = rounds n (round unit)

-- What the rounds leave alone.
abbrev Kept : Div → Div → Type 0
Kept old next =
    (next.operation_type ≡ old.operation_type)
    × (next.rob_tag ≡ old.rob_tag)
    × (next.is_result_negative ≡ old.is_result_negative)
    × (next.is_dividend_negative ≡ old.is_dividend_negative)
    × (next.clz_d ≡ old.clz_d)
    × (next.shift_d ≡ old.shift_d)
    × (next.unsigned_divisor ≡ old.unsigned_divisor)

pub rounds-Kept : (n : ℕ) (unit : Div) → Kept unit (rounds n unit)
unfolding loop
rounds-Kept zero unit = (refl, refl, refl, refl, refl, refl, refl)
rounds-Kept (suc n) unit = rounds-Kept n (round unit)

pub rounds-Running : (n m : ℕ) (unit : Div) → Running unit m → Running (rounds n unit) (m * 4 ^ n)
rounds-Running zero m unit r = let e : m * 4 ^ 0 ≡ m = omega arith in rw e r
rounds-Running (suc n) m unit r =
    let e : m * 4 ^ suc n ≡ 4 * m * 4 ^ n = omega (arith, ap (λ (t : ℕ). m * t) (pow-suc 4 n)) in
    rw e (rounds-Running n (4 * m) (round unit) (round-Running unit m r))

-- A unit with `n` rounds to go: in its rounds, or at the final addition when none is left.
pub record Counting (unit : Div) (n : ℕ) : Type 0 where
  pub times : unit.loop_times ≡ n
  pub few : n < 2 ^ 8
  pub flags : Flags unit false (not (n == 0)) (n == 0) false

round-Counting : (unit : Div) (n : ℕ) → Counting unit (suc n) → Counting (round unit) n
unfolding loop
round-Counting unit n c = ground arith

more-Flags :
    (unit : Div) (n : ℕ)
    → Flags unit false (not (suc n == 0)) (suc n == 0) false
    → Flags unit false true false false
more-Flags unit n f = ground arith

-- With `n` rounds to go, one quiet tick more than `n` makes the rounds and the addition.
pub run-finish :
    (n : ℕ) (inputs : List DivInput) (unit : Div)
    → AllQuiet inputs
    → length inputs ≡ suc n
    → Counting unit n
    → run inputs unit ≡ finish (rounds n unit)
run-finish n [] unit q e c = absurd (omega arith)
run-finish zero (input ∷ []) unit q e c = tick-finish input unit q.0 c.flags
run-finish zero (input ∷ next ∷ rest) unit q e c = absurd (omega arith)
run-finish (suc n) (input ∷ rest) unit q e c =
    rw (tick-round input unit q.0 (more-Flags unit n c.flags))
      (run-finish n rest (round unit) q.1 (omega arith) (round-Counting unit n c))
