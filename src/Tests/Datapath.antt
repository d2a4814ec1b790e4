-- ===== src/Tests/Datapath.antt =====
-- Tests of the arithmetic units.
use rv32im_simulator.Prelude.{
  ◌+◌, ◌-◌, ◌^◌, ◌≡◌, refl, not, ltb, true, false, Option, none, some, [], ◌∷◌, replicate,
  if◌then◌else◌, low_bits, u64, arith,
}
use mathlib.Core.List.{Mem}
use rv32im_simulator.Prelude.Int.{◌+ℤ◌, ◌-ℤ◌, ltb_ℤ, signed32, to_word, to_word64, floor_shift}
use rv32im_simulator.Types.{lt, ge, ltu, geu, add, sub, slt, sra, mul, mulh, div}
use rv32im_simulator.Buffer
use rv32im_simulator.Buffer.Entries.{entries}
use rv32im_simulator.Bru.{taken}
use rv32im_simulator.Bru.Branch.{taken_signed}
use rv32im_simulator.Alu.{calculate}
use rv32im_simulator.Alu.Signed.{calculate_signed}
use rv32im_simulator.Prf
use rv32im_simulator.Prf.{get_operand_value}
use rv32im_simulator.Mul.{
  Mul, MulInput, calculate_booth, calculate_sc, final_value, tick, kill_sc, kill_partial,
}
use rv32im_simulator.Mul.Product.{is_mulh, multiply_correct, exact, word_of}
use rv32im_simulator.Mul.Pipeline.{multiply_latency, dispatched, operand1, operand2}
use rv32im_simulator.Div
use rv32im_simulator.Div.{receive, get_value, special_case, is_signed_op, magnitude}
use rv32im_simulator.Div.Special.{is_div, receive_special, defined}
use rv32im_simulator.Tests.Samples.{quiet, empty_unit}

calculate_signed_example :
    (calculate add 5 (2 ^ 32 - 7) ≡ to_word (signed32 5 +ℤ signed32 (2 ^ 32 - 7)))
    × (calculate sub 5 (2 ^ 32 - 7) ≡ to_word (signed32 5 -ℤ signed32 (2 ^ 32 - 7)))
    × (calculate slt 5 (2 ^ 32 - 7) ≡ (if ltb_ℤ (signed32 5) (signed32 (2 ^ 32 - 7)) then 1 else 0))
    × (signed32 (calculate sra 5 (2 ^ 32 - 7)) ≡ floor_shift (signed32 5) (low_bits 5 (2 ^ 32 - 7)))
calculate_signed_example = calculate_signed 5 (2 ^ 32 - 7) (omega arith) (omega arith)

-- -1 and 1.
taken_signed_example :
    (taken lt (2 ^ 32 - 1) 1 ≡ ltb_ℤ (signed32 (2 ^ 32 - 1)) (signed32 1))
    × (taken ge (2 ^ 32 - 1) 1 ≡ not (ltb_ℤ (signed32 (2 ^ 32 - 1)) (signed32 1)))
    × (taken ltu (2 ^ 32 - 1) 1 ≡ ltb (2 ^ 32 - 1) 1)
    × (taken geu (2 ^ 32 - 1) 1 ≡ not (ltb (2 ^ 32 - 1) 1))
taken_signed_example = taken_signed (2 ^ 32 - 1) 1 (omega arith) (omega arith)

-- -3 times 100000.
multiply_correct_example :
    let sc = calculate_sc (calculate_booth (2 ^ 32 - 3) 100000 9 mulh) in
    final_value mulh (u64 (sc.s_word + sc.c_word)) 0
    ≡ word_of mulh (to_word64 (exact mulh (2 ^ 32 - 3) 100000))
multiply_correct_example =
    multiply_correct (2 ^ 32 - 3) 100000 9 0 is_mulh (omega arith) (omega arith)

-- A multiplication of 7 by -3 with tag 5, which nothing disturbs.
abbrev no_dispatch : MulInput
no_dispatch = record {
  squash = quiet;
  rs = empty_unit;
  prf = Prf.initial;
  cdb_valid = false;
  cdb_tag = 0;
  dispatch = record { valid = false; rs_index = 0; rob_tag = 0 };
}

abbrev with_dispatch : MulInput
with_dispatch = record no_dispatch {
  rs = record empty_unit {
    multiply_rs =
        record {
          op = mulh;
          free = false;
          src1 = record { tag = 0; imm = 7 };
          src2 = record { tag = 0; imm = 2 ^ 32 - 3 };
          rob_tag = 5;
        }
        ∷ [];
  };
  dispatch = record { valid = true; rs_index = 0; rob_tag = 5 };
}

abbrev idle_mul : Mul
idle_mul = record {
  partial_res = record {
    partial_product = replicate 19 0;
    rob_tag = 0;
    op = mul;
    partial_product_valid = false;
  };
  sc_res = record { s_word = 0; c_word = 0; carry_adder_valid = false; rob_tag = 0; op = mul };
  output = replicate 4 (record { valid = false; result = record { value = 0; rob_tag = 0 } });
}

abbrev after : Option Mul → Mul
after none = idle_mul
after (some next) = next

abbrev first_tick : Mul
first_tick = after (tick with_dispatch idle_mul)

abbrev second_tick : Mul
second_tick = after (tick no_dispatch first_tick)

multiply_latency_example :
    (m3 : Mul) × (tick no_dispatch second_tick ≡ some m3)
    × Mem
        (record {
          value = word_of (dispatched with_dispatch).op (
              to_word64 (
                exact
                  (dispatched with_dispatch).op
                  (operand1 with_dispatch)
                  (operand2 with_dispatch)));
          rob_tag = 5;
        })
        (entries m3.output)
unfolding tick kill_sc Buffer.is_full kill_partial calculate_booth get_operand_value
multiply_latency_example =
    multiply_latency with_dispatch no_dispatch no_dispatch idle_mul first_tick second_tick refl refl
      refl refl refl refl refl is_mulh (omega arith) (omega arith)

-- INT32_MIN / -1.
receive_special_example :
    ((receive (2 ^ 31) (2 ^ 32 - 1) 3 div Div.initial).result_valid ≡ true)
    × (get_value (receive (2 ^ 31) (2 ^ 32 - 1) 3 div Div.initial)
        ≡ some (defined div (2 ^ 31) (2 ^ 32 - 1)))
unfolding special_case
receive_special_example =
    receive_special div (2 ^ 31) (2 ^ 32 - 1) (2 ^ 31) 0 3 Div.initial is_div (omega arith)
      (omega arith) refl
