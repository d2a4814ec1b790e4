-- ===== src/Mul.antt =====
-- The pipelined multiplier of src/include/MUL.hpp and src/MUL/MUL.cpp: Booth rows, then a tree of
-- carry-save adders, then the final sum into the output buffer. Rows are 64-bit words.
pub mod Csa
pub mod Booth
pub mod Product
pub mod Pipeline
use rv32im_simulator.Prelude.{
  ℕ, zero, suc, ◌+◌, ◌-◌, ◌*◌, Bool, true, false, ◌&&◌, ◌||◌, ◌==◌, if◌then◌else◌, Option, none,
  some, List, [], ◌∷◌, ◌++◌, u32, u64, complement, low_bits, ◌>>>◌, ◌<<<◌, is_negative,
  sign_extend64, bit_or, get_or,
}
use mathlib.Core.Option
use rv32im_simulator.Prelude.Bits.{xor3, majority}
use rv32im_simulator.Types.{Operation, mul, mulh, mulhu, mulhsu, SquashInfo, DispatchInfo}
use rv32im_simulator.Tags.{is_older}
use rv32im_simulator.Buffer
use rv32im_simulator.Buffer.{Buffer, Tagged}
use rv32im_simulator.Prf.{Prf, get_operand_value}
use rv32im_simulator.Rs.{RsUnit, empty_station}

-- `MultiplyCalculateResult`.
pub record MulResult : Type 0 where
  pub value : ℕ
  pub rob_tag : ℕ

instance abbrev pub mul_tagged : Tagged MulResult
mul_tagged = record { rob_tag = λ result. result.rob_tag }

-- `PartialProductResult`: 19 rows.
pub record Partial : Type 0 where
  pub partial_product : List ℕ
  pub rob_tag : ℕ
  pub op : Operation
  pub partial_product_valid : Bool

-- `SCResult`.
pub record ScResult : Type 0 where
  pub s_word : ℕ
  pub c_word : ℕ
  pub carry_adder_valid : Bool
  pub rob_tag : ℕ
  pub op : Operation

pub record Mul : Type 0 where
  pub partial_res : Partial
  pub sc_res : ScResult
  pub output : Buffer MulResult

pub record Csa3 : Type 0 where
  pub sum : ℕ
  pub carry : ℕ

-- A row of 3:2 compressors; the carries move up one place and the topmost falls out.
unfoldable pub csa3 : ℕ → ℕ → ℕ → Csa3
csa3 a b c = record { sum = xor3 a b c; carry = u64 (majority a b c <<< 1) }

-- Digits 2i + 1, 2i and 2i - 1 of the second operand, with a 0 below the lowest.
unfoldable pub triple : ℕ → ℕ → ℕ
triple op2 i = if i == 0 then low_bits 2 op2 <<< 1 else low_bits 3 (op2 >>> (i * 2 - 1))

-- The switch over `triple`: the multiple of A, and whether it is subtracted.
unfoldable pub multiple : ℕ → ℕ → ℕ
multiple a t =
    if (t == 1) || (t == 2)
    then a
    else if (t == 3) || (t == 4)
    then u64 (a <<< 1)
    else if (t == 5) || (t == 6)
    then a
    else 0

unfoldable pub is_subtracted : ℕ → Bool
is_subtracted t = (t == 4) || (t == 5) || (t == 6)

-- `partialProduct[i]`.
unfoldable pub booth_row : ℕ → ℕ → ℕ → ℕ
unfolding multiple is_subtracted
booth_row a op2 i =
    let t = triple op2 i in
    let row = multiple a t in u64 ((if is_subtracted t then complement 64 row else row) <<< (i * 2))

-- Rows 0 to n - 1, after n rounds of the loop.
unfoldable pub booth_rows : ℕ → ℕ → ℕ → List ℕ
booth_rows a op2 zero = []
booth_rows a op2 (suc n) = booth_rows a op2 n ++ (booth_row a op2 n ∷ [])

-- `partialProduct[18]` after n rounds: a bit at column 2i for each subtracted row.
unfoldable pub booth_corrections : ℕ → ℕ → ℕ
booth_corrections op2 zero = 0
booth_corrections op2 (suc n) =
    let rest = booth_corrections op2 n in
    if is_subtracted (triple op2 n) then bit_or rest (u64 (1 <<< (n * 2))) else rest

unfoldable pub is_mulhu : Operation → Bool
is_mulhu mulhu = true
is_mulhu _ = false

unfoldable pub is_mulhsu : Operation → Bool
is_mulhsu mulhsu = true
is_mulhsu _ = false

-- Rows 16 and 17: what an unsigned reading of the operands adds to the signed product.
unfoldable pub first_fixup : Operation → ℕ → ℕ → ℕ
unfolding is_mulhu
first_fixup op op1 op2 = if is_mulhu op && is_negative op1 then u64 (op2 <<< 32) else 0

unfoldable pub second_fixup : Operation → ℕ → ℕ → ℕ
unfolding is_mulhu is_mulhsu
second_fixup op op1 op2 =
    if (is_mulhu op || is_mulhsu op) && is_negative op2 then u64 (sign_extend64 op1 <<< 32) else 0

unfoldable pub calculate_booth : ℕ → ℕ → ℕ → Operation → Partial
calculate_booth op1 op2 tag op = record {
  partial_product =
      booth_rows (sign_extend64 op1) op2 16
      ++ (first_fixup op op1 op2 ∷ second_fixup op op1 op2 ∷ booth_corrections op2 16 ∷ []);
  rob_tag = tag;
  op = op;
  partial_product_valid = true;
}

-- The compressor tree over the rows `p 0` to `p 18`: 19 -> 13 -> 9 -> 6 -> 4 -> 3 -> 2.
unfoldable pub compress : (ℕ → ℕ) → Csa3
compress p =
    let a0 = csa3 (p 0) (p 1) (p 2) in
    let a1 = csa3 (p 3) (p 4) (p 5) in
    let a2 = csa3 (p 6) (p 7) (p 8) in
    let a3 = csa3 (p 9) (p 10) (p 11) in
    let a4 = csa3 (p 12) (p 13) (p 14) in
    let a5 = csa3 (p 15) (p 16) (p 17) in
    let b0 = csa3 a0.sum a0.carry a1.sum in
    let b1 = csa3 a1.carry a2.sum a2.carry in
    let b2 = csa3 a3.sum a3.carry a4.sum in
    let b3 = csa3 a4.carry a5.sum a5.carry in
    let c0 = csa3 b0.sum b0.carry b1.sum in
    let c1 = csa3 b1.carry b2.sum b2.carry in
    let c2 = csa3 b3.sum b3.carry (p 18) in
    let d0 = csa3 c0.sum c0.carry c1.sum in
    let d1 = csa3 c1.carry c2.sum c2.carry in
    let e0 = csa3 d0.sum d0.carry d1.sum in csa3 e0.sum e0.carry d1.carry

unfoldable pub calculate_sc : Partial → ScResult
calculate_sc partial =
    let f0 = compress (λ i. get_or partial.partial_product i 0) in
    record {
      s_word = f0.sum;
      c_word = f0.carry;
      carry_adder_valid = true;
      rob_tag = partial.rob_tag;
      op = partial.op;
    }

-- What the switch at the end of `MUL::calculateMulRes` writes into the slot; another operation
-- leaves the value that the slot held.
unfoldable pub final_value : Operation → ℕ → ℕ → ℕ
final_value mul res old = u32 res
final_value mulh res old = res >>> 32
final_value mulhsu res old = res >>> 32
final_value mulhu res old = res >>> 32
final_value _ res old = old

-- `none` is the failed assertion "MUL slot overflow".
unfoldable pub calculate_mul_res : ScResult → Mul → Option Mul
calculate_mul_res sc unit =
    let res = u64 (sc.s_word + sc.c_word) in
    if Buffer.is_full unit.output
    then none
    else some (record unit {
      output =
          Buffer.fill_free
            (λ old. record { value = final_value sc.op res old.value; rob_tag = sc.rob_tag })
            unit.output;
    })

unfoldable pub head_value : Mul → ℕ
head_value unit = elim (Buffer.oldest unit.output) [ none ↦ 0 | some best ↦ best.value ]

unfoldable pub head_rob_tag : Mul → ℕ
head_rob_tag unit = elim (Buffer.oldest unit.output) [ none ↦ 0 | some best ↦ best.rob_tag ]

unfoldable pub is_full : Mul → Bool
is_full unit = Buffer.is_full unit.output

unfoldable pub is_empty : Mul → Bool
is_empty unit = Buffer.is_empty unit.output

unfoldable pub remove : ℕ → Mul → Mul
remove tag unit = record unit { output = Buffer.remove tag unit.output }

unfoldable pub kill_partial : Mul → Mul
kill_partial unit =
    let partial = unit.partial_res in
    record unit { partial_res = record partial { partial_product_valid = false } }

unfoldable pub kill_sc : Mul → Mul
kill_sc unit =
    let sc = unit.sc_res in record unit { sc_res = record sc { carry_adder_valid = false } }

unfoldable pub flush : ℕ → Mul → Mul
unfolding kill_partial kill_sc
flush tag unit =
    let outputs = record unit { output = Buffer.flush tag unit.output } in
    let first = if is_older tag unit.partial_res.rob_tag then kill_partial outputs else outputs in
    if is_older tag unit.sc_res.rob_tag then kill_sc first else first

-- `struct MULInput`.
pub record MulInput : Type 0 where
  pub squash : SquashInfo
  pub rs : RsUnit
  pub prf : Prf
  pub cdb_valid : Bool
  pub cdb_tag : ℕ
  pub dispatch : DispatchInfo

-- The stages of `MUL::tick`. Each reads the state before the tick and changes the next state.
unfoldable finish_stage : Mul → Mul → Option Mul
finish_stage old next =
    if old.sc_res.carry_adder_valid
    then Option.map kill_sc (calculate_mul_res old.sc_res next)
    else some next

unfoldable pub compress_stage : Mul → Mul → Mul
compress_stage old next =
    if old.partial_res.partial_product_valid
    then kill_partial (record next { sc_res = calculate_sc old.partial_res })
    else kill_sc next

unfoldable pub booth_stage : MulInput → Mul → Mul
booth_stage input next =
    let rs = get_or input.rs.multiply_rs input.dispatch.rs_index empty_station in
    if input.dispatch.valid
    then record next {
      partial_res =
          calculate_booth (get_operand_value input.prf rs.src1)
            (get_operand_value input.prf rs.src2) input.dispatch.rob_tag rs.op;
    }
    else kill_partial next

unfoldable pub squash_stage : SquashInfo → Mul → Mul
squash_stage squash next = if squash.need_squash then flush squash.squash_tag next else next

unfoldable pub tick : MulInput → Mul → Option Mul
unfolding finish_stage compress_stage booth_stage squash_stage
tick input old =
    let sent = if input.cdb_valid then remove input.cdb_tag old else old in
    Option.map (λ next. squash_stage input.squash (booth_stage input (compress_stage old next)))
      (finish_stage old sent)
