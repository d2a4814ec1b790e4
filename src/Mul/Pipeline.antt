-- ===== src/Mul/Pipeline.antt =====
-- The three stages of `MUL::tick` in src/MUL/MUL.cpp over three clock ticks.
use mathlib.Core.List.{Mem, mem-cons_self, mem-cons_of_mem}
use mathlib.Core.Path.{subst}
use rv32im_simulator.Prelude.{
  ℕ, ◌^◌, ◌<◌, true, false, if◌then◌else◌, Bool-cases, some, [], ◌∷◌, ◌≡◌, refl, ◌∙◌, sym, ap,
  get_or, u64, ◌+◌, inl, inr, arith,
}
use rv32im_simulator.Buffer
use rv32im_simulator.Buffer.{Buffer}
use rv32im_simulator.Buffer.Entries.{entries}
use rv32im_simulator.Types.{Operation}
use rv32im_simulator.Prf.{get_operand_value}
use rv32im_simulator.Rs.{Station, empty_station}
use rv32im_simulator.Mul.{
  Mul, Partial, ScResult, MulInput, MulResult, calculate_booth, calculate_sc, calculate_mul_res,
  final_value, remove, tick, kill_sc, kill_partial, compress_stage, booth_stage, squash_stage,
}
use rv32im_simulator.Mul.Product.{IsMultiply, multiply_correct, word_of, exact}
use rv32im_simulator.Prelude.Int.{to_word64}

-- The result that fills a free slot is in the buffer.
mem-fill_free :
    {A : Type 0} (f : A → A) (y : A) (b : Buffer A)
    → Buffer.is_full b ≡ false
    → ((old : A) → f old ≡ y)
    → Mem y (entries (Buffer.fill_free f b))
unfolding Buffer.is_full Buffer.fill_free entries
mem-fill_free f y [] h e = absurd (ground arith)
mem-fill_free f y (slot ∷ rest) h e = elim (Bool-cases slot.valid) [
  | inl used ↦ rw used (mem-cons_of_mem _ (mem-fill_free f y rest (ground arith) e))
  | inr free ↦ rw (free, e slot.result) mem-cons_self
]

-- The buffer after the result on the unit's bus has left it.
abbrev after_bus : MulInput → Mul → Mul
after_bus input old = if input.cdb_valid then remove input.cdb_tag old else old

abbrev pub NoSquash : MulInput → Type 0
NoSquash input = input.squash.need_squash ≡ false

module _ (input : MulInput) (old : Mul) (calm : NoSquash input) where
  booth_tick :
      {next : Mul}
      → input.dispatch.valid ≡ true
      → tick input old ≡ some next
      → let rs = get_or input.rs.multiply_rs input.dispatch.rs_index empty_station in
        next.partial_res
        ≡ calculate_booth
            (get_operand_value input.prf rs.src1)
            (get_operand_value input.prf rs.src2)
            input.dispatch.rob_tag
            rs.op
  unfolding tick
  booth_tick d e = ground arith

  compress_tick :
      {next : Mul}
      → old.partial_res.partial_product_valid ≡ true
      → tick input old ≡ some next
      → next.sc_res ≡ calculate_sc old.partial_res
  unfolding tick kill_partial
  compress_tick d e = ground arith

  -- What the later stages make of the state after the adder.
  later_stages : Mul → Mul
  later_stages next = squash_stage input.squash (booth_stage input (compress_stage old next))

  output-later_stages : (next : Mul) → (later_stages next).output ≡ next.output
  unfolding later_stages squash_stage booth_stage compress_stage kill_sc kill_partial
  output-later_stages next = ground arith

  finish_tick :
      (y : MulResult)
      → let sc = old.sc_res in
        sc.carry_adder_valid ≡ true
        → Buffer.is_full (after_bus input old).output ≡ false
        → ((v : ℕ)
            → ◌≡◌ {A = MulResult}
                (record {
                  value = final_value sc.op (u64 (sc.s_word + sc.c_word)) v;
                  rob_tag = sc.rob_tag;
                })
                y)
        → (next : Mul) × (tick input old ≡ some next) × Mem y (entries next.output)
  unfolding tick later_stages calculate_mul_res kill_sc
  finish_tick y d e f =
      let sent = after_bus input old in
      let sc = old.sc_res in
      let filled =
        Buffer.fill_free
          (λ v. record {
            value = final_value sc.op (u64 (sc.s_word + sc.c_word)) v.value;
            rob_tag = sc.rob_tag;
          })
          sent.output in
      let added = kill_sc (record sent { output = filled }) in
      (
        later_stages added,
        ground arith,
        subst (λ b. Mem y (entries b)) (sym (output-later_stages added))
            (mem-fill_free _ y sent.output e (λ v. f v.value)),
      )

sc_fields :
    (a b tag : ℕ) (op : Operation)
    → let sc = calculate_sc (calculate_booth a b tag op) in
      (sc.op ≡ op) × (sc.rob_tag ≡ tag) × (sc.carry_adder_valid ≡ true)
unfolding calculate_sc calculate_booth
sc_fields a b tag op = (refl, refl, refl)

booth_valid :
    (a b tag : ℕ) (op : Operation) → (calculate_booth a b tag op).partial_product_valid ≡ true
unfolding calculate_booth
booth_valid a b tag op = refl

final_record :
    {op : Operation} (a b tag : ℕ) (sc : ScResult) (v : ℕ)
    → IsMultiply op
    → a < 2 ^ 32
    → b < 2 ^ 32
    → sc ≡ calculate_sc (calculate_booth a b tag op)
    → ◌≡◌ {A = MulResult}
        (record { value = final_value sc.op (u64 (sc.s_word + sc.c_word)) v; rob_tag = sc.rob_tag })
        (record { value = word_of op (to_word64 (exact op a b)); rob_tag = tag })
final_record {op} a b tag sc v m ha hb q =
    let made = calculate_sc (calculate_booth a b tag op) in
    let fields = sc_fields a b tag op in
    let word : final_value sc.op (u64 (sc.s_word + sc.c_word)) v
        ≡ word_of op (to_word64 (exact op a b)) =
      cc (multiply_correct a b tag v m ha hb, fields.0, q) in
    let tags : sc.rob_tag ≡ tag = ap (λ (s : ScResult). s.rob_tag) q ∙ fields.1 in cc

-- The station and the operands that a tick dispatches.
abbrev pub dispatched : MulInput → Station
dispatched input = get_or input.rs.multiply_rs input.dispatch.rs_index empty_station

abbrev pub operand1 : MulInput → ℕ
operand1 input = get_operand_value input.prf (dispatched input).src1

abbrev pub operand2 : MulInput → ℕ
operand2 input = get_operand_value input.prf (dispatched input).src2

-- When a multiplication of 32-bit operands is dispatched in a first tick, a second tick follows,
-- none of these and the third squashes, and the buffer has a free slot once the bus has taken its
-- result in the third, then the third tick succeeds and the buffer holds the word that RISC-V
-- defines under the instruction's tag.
pub multiply_latency :
    (i1 i2 i3 : MulInput) (m0 m1 m2 : Mul)
    → NoSquash i1
    → NoSquash i2
    → NoSquash i3
    → i1.dispatch.valid ≡ true
    → tick i1 m0 ≡ some m1
    → tick i2 m1 ≡ some m2
    → Buffer.is_full (after_bus i3 m2).output ≡ false
    → IsMultiply (dispatched i1).op
    → operand1 i1 < 2 ^ 32
    → operand2 i1 < 2 ^ 32
    → (m3 : Mul) × (tick i3 m2 ≡ some m3)
      × Mem
          (record {
            value =
                word_of
                  (dispatched i1).op
                  (to_word64 (exact (dispatched i1).op (operand1 i1) (operand2 i1)));
            rob_tag = i1.dispatch.rob_tag;
          })
          (entries m3.output)
multiply_latency i1 i2 i3 m0 m1 m2 n1 n2 n3 d e1 e2 room m ha hb =
    let a = operand1 i1 in
    let b = operand2 i1 in
    let op = (dispatched i1).op in
    let tag = i1.dispatch.rob_tag in
    let first = booth_tick i1 m0 n1 d e1 in
    let second =
      compress_tick i2 m1 n2
        (ap (λ (x : Partial). x.partial_product_valid) first ∙ booth_valid a b tag op) e2 in
    let third = second ∙ ap calculate_sc first in
    finish_tick i3 m2 n3 _
      (ap (λ (s : ScResult). s.carry_adder_valid) third ∙ (sc_fields a b tag op).2) room
      (λ v. final_record a b tag m2.sc_res v m ha hb third)
