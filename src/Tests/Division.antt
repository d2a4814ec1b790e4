-- ===== src/Tests/Division.antt =====
-- Tests of the divider's iteration.
use rv32im_simulator.Prelude.{ℕ, ◌≤◌, ◌≡◌, refl, true, false, some, replicate, arith}
use rv32im_simulator.Types.{div}
use rv32im_simulator.Prf
use rv32im_simulator.Prf.{get_operand_value, is_operand_ready}
use rv32im_simulator.Rs.{RsUnit, empty_station}
use rv32im_simulator.Div
use rv32im_simulator.Div.{can_accept, get_value, special_case}
use rv32im_simulator.Div.Clz.{clz, halve}
use rv32im_simulator.Div.Special.{is_div, defined}
use rv32im_simulator.Div.Iterate.{DivInput, tick}
use rv32im_simulator.Div.Clock.{run}
use rv32im_simulator.Div.Latency.{latency, first_inputs, divide_latency, divide_terminates}
use rv32im_simulator.Tests.Samples.{quiet, empty_unit}

-- 100 divided by -7.
abbrev division_unit : RsUnit
division_unit = record empty_unit {
  divide_rs = replicate 1 (record empty_station {
    op = div;
    free = false;
    src1 = record { tag = 0; imm = 100 };
    src2 = record { tag = 0; imm = 0xffff_fff9 };
    rob_tag = 5;
  });
}

abbrev division_input : DivInput
division_input = record {
  squash = quiet;
  rs = division_unit;
  prf = Prf.initial;
  cdb_valid = false;
  dispatch = record { valid = true; rs_index = 0; rob_tag = 5 };
}

abbrev quiet_input : DivInput
quiet_input = record {
  squash = quiet;
  rs = empty_unit;
  prf = Prf.initial;
  cdb_valid = false;
  dispatch = record { valid = false; rs_index = 0; rob_tag = 0 };
}

divide_latency_example :
    let next = run (replicate 4 quiet_input) (tick division_input Div.initial) in
    (next.result_valid ≡ true)
    × (get_value next ≡ some (defined div 100 0xffff_fff9))
    × (next.rob_tag ≡ 5)
unfolding can_accept get_operand_value latency special_case clz halve
divide_latency_example =
    divide_latency division_input (replicate 4 quiet_input) Div.initial refl refl refl is_div
      (omega arith) (omega arith) ((refl, refl), ((refl, refl), ((refl, refl), ((refl, refl), tt))))
      refl

divide_terminates_example :
    (n : ℕ) × (n ≤ 18)
    × ((run (first_inputs n (λ _. quiet_input)) (tick division_input Div.initial)).result_valid
        ≡ true)
unfolding can_accept get_operand_value
divide_terminates_example =
    divide_terminates division_input (λ _. quiet_input) Div.initial refl refl refl is_div
      (omega arith) (omega arith) (λ _. (refl, refl))
