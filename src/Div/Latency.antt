-- ===== src/Div/Latency.antt =====
-- A whole division in src/DIV/DIV.cpp, from its dispatch to its result.
use rv32im_simulator.Prelude.{
  ℕ, zero, suc, ◌+◌, ◌^◌, ◌<◌, ◌≤◌, ◌≡◌, refl, sym, ap, ap₂, [], ◌∷◌, ◌∙◌, true, false,
  Option-cases, inl, inr, none, some, List, length, arith,
}
use rv32im_simulator.Types.{Operation}
use rv32im_simulator.Div.{Div, initial, start, receive, get_value, can_accept, special_case}
use rv32im_simulator.Div.{finish as finish_now}
use rv32im_simulator.Div.Normal.{clz_normal}
use rv32im_simulator.Div.Iterate.{DivInput, prepare, tick}
use rv32im_simulator.Div.Clock.{
  Flags, AllQuiet, IsQuiet, run, rounds, tick-receive, dispatched, operand1, operand2,
}
use rv32im_simulator.Div.Align.{rounds_of}
use rv32im_simulator.Div.Special.{
  special_case-none, receive-finish, receive_special, IsDivide, defined,
}
use rv32im_simulator.Div.Iterated.{
  size_of, start_sizes, start-Flags, start_tags, receive-start, get_value-value_of, value_defined,
  finish_kept, iterated, iterated_divides, iterated_kept, run-iterated,
}

-- The quiet ticks after the one of the dispatch: none for a special case.
unfoldable pub latency : Operation → ℕ → ℕ → ℕ
latency op a b = elim (special_case op a b) [
  | some _ ↦ 0
  | none ↦ 2 + rounds_of (size_of op a) (size_of op b)
]

idle-Flags : (unit : Div) → can_accept unit ≡ true → Flags unit false false false false
unfolding can_accept
idle-Flags unit e = ground arith

latency-some :
    (op : Operation) (a b : ℕ) (v : ℕ × ℕ) → special_case op a b ≡ some v → latency op a b ≡ 0
unfolding latency
latency-some op a b v e =
    ap (λ o. elim o [ some _ ↦ 0 | none ↦ 2 + rounds_of (size_of op a) (size_of op b) ]) e

latency-none :
    (op : Operation) (a b : ℕ)
    → special_case op a b ≡ none
    → latency op a b ≡ 2 + rounds_of (size_of op a) (size_of op b)
unfolding latency
latency-none op a b e =
    ap (λ o. elim o [ some _ ↦ 0 | none ↦ 2 + rounds_of (size_of op a) (size_of op b) ]) e

abbrev Answers : Div → Operation → ℕ → ℕ → ℕ → Type 0
Answers unit op a b tag =
    (unit.result_valid ≡ true) × (get_value unit ≡ some (defined op a b)) × (unit.rob_tag ≡ tag)

-- After a dispatch that starts the iteration.
started-Answers :
    (op : Operation) (a b tag : ℕ) (unit : Div) (inputs : List DivInput)
    → IsDivide op
    → a < 2 ^ 32
    → b < 2 ^ 32
    → special_case op a b ≡ none
    → Flags unit false false false false
    → AllQuiet inputs
    → length inputs ≡ 2 + rounds_of (size_of op a) (size_of op b)
    → Answers (run inputs (start a b tag op unit)) op a b tag
started-Answers op a b tag unit inputs is ha hb e f q n =
    let s = start a b tag op unit in
    let sizes = start_sizes a b tag unit is ha hb in
    let order = special_case-none op a b is e in
    let positive : 0 < s.unsigned_divisor = omega (arith, sizes.1, sizes.3 order.0) in
    let above : s.unsigned_divisor < s.unsigned_dividend =
      omega (arith, sizes.0, sizes.1, order.1) in
    let small : s.unsigned_dividend < 2 ^ 32 = omega (arith, sizes.0, sizes.2) in
    let whole =
      run-iterated s positive above small inputs q
        (n ∙ ap₂ (λ x d. 2 + rounds_of x d) (sym sizes.0) (sym sizes.1))
        (start-Flags a b tag unit op f) in
    let divides = iterated_divides s positive above small in
    let kept = iterated_kept s positive above small in
    let value : get_value (iterated s) ≡ some (defined op a b) = cc (
      get_value-value_of (iterated s) is (kept.0 ∙ (start_tags a b tag unit op).0),
      divides.0,
      divides.1,
      kept.2,
      kept.3,
      sizes.0,
      sizes.1,
      value_defined a b tag unit is ha hb order.0,
    ) in
    rw whole (
      (finish_kept (rounds (rounds_of s.unsigned_dividend s.unsigned_divisor) (prepare s))).0,
      value,
      kept.1 ∙ (start_tags a b tag unit op).1,
    )

no_inputs : {A : Type 0} (inputs : List A) → length inputs ≡ 0 → inputs ≡ []
no_inputs [] e = refl
no_inputs (input ∷ rest) e = absurd (omega arith)

special-Answers :
    (op : Operation) (a b tag : ℕ) (unit : Div) (v : ℕ × ℕ)
    → IsDivide op
    → a < 2 ^ 32
    → b < 2 ^ 32
    → special_case op a b ≡ some v
    → Answers (receive a b tag op unit) op a b tag
unfolding receive finish_now
special-Answers op a b tag unit (q, r) is ha hb e =
    let done = receive_special op a b q r tag unit is ha hb e in
    (done.0, done.1, ap (λ u. u.rob_tag) (receive-finish op a b q r tag unit e))

received-Answers :
    (op : Operation) (a b tag : ℕ) (unit : Div) (inputs : List DivInput)
    → IsDivide op
    → a < 2 ^ 32
    → b < 2 ^ 32
    → Flags unit false false false false
    → AllQuiet inputs
    → length inputs ≡ latency op a b
    → Answers (run inputs (receive a b tag op unit)) op a b tag
received-Answers op a b tag unit inputs is ha hb f q n = elim (Option-cases (special_case op a b)) [
  | inl none' ↦
      rw (receive-start op a b tag unit none')
        (started-Answers op a b tag unit inputs is ha hb none' f q (n ∙ latency-none op a b none'))
  | inr (v, some') ↦
      let empty = no_inputs inputs (n ∙ latency-some op a b v some') in
      rw empty (special-Answers op a b tag unit v is ha hb some')
]

-- After a division or remainder of 32-bit operands is dispatched into an idle unit, with no
-- squash, as many ticks without a dispatch or a squash as `latency` says leave the unit with its
-- result ready, and it is the word that RISC-V defines under the instruction's tag.
pub divide_latency :
    (input : DivInput) (inputs : List DivInput) (unit : Div)
    → let op = (dispatched input).op in
      can_accept unit ≡ true
      → input.dispatch.valid ≡ true
      → input.squash.need_squash ≡ false
      → IsDivide op
      → operand1 input < 2 ^ 32
      → operand2 input < 2 ^ 32
      → AllQuiet inputs
      → length inputs ≡ latency op (operand1 input) (operand2 input)
      → let next = run inputs (tick input unit) in
        (next.result_valid ≡ true)
        × (get_value next ≡ some (defined op (operand1 input) (operand2 input)))
        × (next.rob_tag ≡ input.dispatch.rob_tag)
divide_latency input inputs unit free d s is ha hb q n =
    let f = idle-Flags unit free in
    rw (tick-receive input unit d s f) (
      received-Answers (dispatched input).op (operand1 input) (operand2 input)
        input.dispatch.rob_tag unit inputs is ha hb f q n)

latency-le :
    (op : Operation) (a b : ℕ) → IsDivide op → a < 2 ^ 32 → b < 2 ^ 32 → latency op a b ≤ 18
latency-le op a b is ha hb = elim (Option-cases (special_case op a b)) [
  | inr (v, some') ↦ omega (arith, latency-some op a b v some')
  | inl none' ↦
      let sizes = start_sizes b b 0 initial is hb hb in
      let positive = sizes.3 (special_case-none op a b is none').0 in
      omega (arith, latency-none op a b none', clz_normal (size_of op b) positive sizes.2)
]

-- The first `n` inputs of a sequence.
abbrev pub first_inputs : ℕ → (ℕ → DivInput) → List DivInput
first_inputs zero inputs = []
first_inputs (suc n) inputs = inputs 0 ∷ first_inputs n (λ i. inputs (suc i))

length-first_inputs : (n : ℕ) (inputs : ℕ → DivInput) → length (first_inputs n inputs) ≡ n
length-first_inputs zero inputs = refl
length-first_inputs (suc n) inputs = ap suc (length-first_inputs n (λ i. inputs (suc i)))

first_inputs-AllQuiet :
    (n : ℕ) (inputs : ℕ → DivInput)
    → ((i : ℕ) → IsQuiet (inputs i))
    → AllQuiet (first_inputs n inputs)
first_inputs-AllQuiet zero inputs q = tt
first_inputs-AllQuiet (suc n) inputs q =
    (q 0, first_inputs-AllQuiet n (λ i. inputs (suc i)) (λ i. q (suc i)))

-- After a division or remainder of 32-bit operands is dispatched into an idle unit, with no
-- squash, and whatever inputs without a dispatch or a squash follow, the result is ready after at
-- most 18 further ticks.
pub divide_terminates :
    (input : DivInput) (inputs : ℕ → DivInput) (unit : Div)
    → can_accept unit ≡ true
    → input.dispatch.valid ≡ true
    → input.squash.need_squash ≡ false
    → IsDivide (dispatched input).op
    → operand1 input < 2 ^ 32
    → operand2 input < 2 ^ 32
    → ((i : ℕ) → IsQuiet (inputs i))
    → (n : ℕ) × (n ≤ 18) × ((run (first_inputs n inputs) (tick input unit)).result_valid ≡ true)
divide_terminates input inputs unit free d s is ha hb q =
    let n = latency (dispatched input).op (operand1 input) (operand2 input) in
    (
      n,
      latency-le (dispatched input).op (operand1 input) (operand2 input) is ha hb,
      (divide_latency input (first_inputs n inputs) unit free d s is ha hb
          (first_inputs-AllQuiet n inputs q) (length-first_inputs n inputs)).0,
    )
