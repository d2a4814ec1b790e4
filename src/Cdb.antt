-- ===== src/Cdb.antt =====
-- The result buses of src/CDB/CDB.cpp: each unit's oldest result, unless a squash kills it.
use rv32im_simulator.Prelude.{true, false, not, ◌&&◌, if◌then◌else◌, Option, none, some}
use rv32im_simulator.Types.{SquashInfo}
use rv32im_simulator.Tags.{survives}
use rv32im_simulator.Packet.{ResultBus}
use rv32im_simulator.Alu
use rv32im_simulator.Alu.{Alu}
use rv32im_simulator.Mul
use rv32im_simulator.Mul.{Mul}
use rv32im_simulator.Div
use rv32im_simulator.Div.{Div}
use rv32im_simulator.Lq
use rv32im_simulator.Lq.{Lq}

abbrev silent : ResultBus
silent = record { value = 0; rob_tag = 0; is_control = false; mem_index = 0; valid = false }

-- `aluCDB::build`.
unfoldable build_alu : Alu → SquashInfo → ResultBus
build_alu alu squash =
    let tag = Alu.head_rob_tag alu in
    if not (Alu.is_empty alu) && survives squash tag
    then record {
      value = Alu.head_value alu;
      rob_tag = tag;
      is_control = Alu.head_is_control alu;
      mem_index = 0;
      valid = true;
    }
    else silent

-- `mulCDB::build`.
unfoldable build_mul : Mul → SquashInfo → ResultBus
build_mul unit squash =
    let tag = Mul.head_rob_tag unit in
    if not (Mul.is_empty unit) && survives squash tag
    then record silent { value = Mul.head_value unit; rob_tag = tag; valid = true }
    else silent

-- `divCDB::build`; `none` is the exception of `getValue`.
unfoldable build_div : Div → SquashInfo → Option ResultBus
build_div unit squash =
    if unit.result_valid && survives squash unit.rob_tag
    then elim (Div.get_value unit) [
      | none ↦ none
      | some value ↦ some (record silent { value = value; rob_tag = unit.rob_tag; valid = true })
    ]
    else some silent

-- The bus of the load queue, from the entry that `CDBDetect` found; `none` is the exception of
-- `getValue`.
unfoldable build_lq : Lq → SquashInfo → Option ResultBus
build_lq lq squash = elim (Lq.cdb_detect lq) [
  | none ↦ some silent
  | some index ↦
      let tag = (Lq.entry_at lq index).rob_tag in
      if survives squash tag
      then elim (Lq.get_value lq index) [
        | none ↦ none
        | some value ↦
            some (record silent { value = value; rob_tag = tag; mem_index = index; valid = true })
      ]
      else some silent
]
