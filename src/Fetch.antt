-- ===== src/Fetch.antt =====
-- The fetch unit of src/FetchUnit/FetchUnit.cpp, and what it and the instruction cache see of a
-- fetch (`FetchDecision`, `LineReturn` of src/include/common.hpp).
use rv32im_simulator.Prelude.{ℕ, Bool, true, false, if◌then◌else◌, List}
use rv32im_simulator.Types.{SquashInfo}

-- `struct TAGESCMeta`, what the predictor remembers of a prediction.
pub record TagescMeta : Type 0 where
  pub prov_valid : Bool
  pub prov_idx : ℕ
  pub prov_ctr : ℕ
  pub prov_u : ℕ
  pub alt_pred : Bool
  pub tage_pred : Bool
  pub base_cnt : ℕ

abbrev pub no_meta : TagescMeta
no_meta = record {
  prov_valid = false;
  prov_idx = 0;
  prov_ctr = 0;
  prov_u = 0;
  alt_pred = false;
  tage_pred = false;
  base_cnt = 0;
}

-- `struct FetchDecision`.
pub record FetchDecision : Type 0 where
  pub valid : Bool
  pub pc : ℕ
  pub predicted_pc : ℕ
  pub shift : Bool
  pub shift_value : Bool
  pub ckpt_id : ℕ
  pub meta : TagescMeta

abbrev pub no_fetch : FetchDecision
no_fetch = record {
  valid = false;
  pc = 0;
  predicted_pc = 0;
  shift = false;
  shift_value = false;
  ckpt_id = 0;
  meta = no_meta;
}

-- `struct LineReturn`: a line of four words.
pub record LineReturn : Type 0 where
  pub valid : Bool
  pub line_addr : ℕ
  pub words : List ℕ

pub record FetchUnit : Type 0 where
  pub program_counter : ℕ
  pub halt_fetched : Bool

-- `struct FetchUnitInput`.
pub record FetchUnitInput : Type 0 where
  pub squash : SquashInfo
  pub decision : FetchDecision
  pub halt_signal : Bool

-- `clear`.
abbrev pub cleared : FetchUnit
cleared = record { program_counter = 0; halt_fetched = false }

-- `FetchUnit::tick`.
unfoldable pub tick : FetchUnitInput → FetchUnit → FetchUnit
tick input unit =
    let latched = if input.halt_signal then record unit { halt_fetched = true } else unit in
    if input.squash.need_squash
    then record { program_counter = input.squash.squash_pc; halt_fetched = false }
    else if input.decision.valid
    then record latched { program_counter = input.decision.predicted_pc }
    else latched
