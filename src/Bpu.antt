-- ===== src/Bpu.antt =====
-- The branch predictor of src/include/BPU.hpp and src/BPU/BPU.cpp: directions by tagged tables over a
-- local-history base, targets by a branch target buffer, a target cache and a return stack. An array is a
-- function of the index, which every access masks or takes from a loop over the array.
pub mod Bounds
pub mod Counts
pub mod Fold
pub mod Indirect
pub mod Predict
pub mod Rewind
pub mod Train
pub mod Stack
pub mod Tick
use rv32im_simulator.Prelude.{ℕ, Bool, false, ◌==◌, if◌then◌else◌}
use rv32im_simulator.Fetch.{TagescMeta, no_meta}

abbrev pub tage_ntables : ℕ
tage_ntables = 4

abbrev pub lfsr_seed : ℕ
lfsr_seed = 0xAC

abbrev pub lfsr_taps : ℕ
lfsr_taps = 0xB8

abbrev pub banktick_max : ℕ
banktick_max = 63

-- `TAGE_HIST`, `TAGE_IDX_BIT` and `TAGE_TAG_BIT`.
abbrev pub tage_hist : ℕ → ℕ
tage_hist table = if table == 0 then 6 else if table == 1 then 12 else if table == 2 then 24 else 48

abbrev pub tage_idx_bit : ℕ
tage_idx_bit = 7

abbrev pub tage_tag_bit : ℕ
tage_tag_bit = 8

pub record TageEntry : Type 0 where
  pub valid : Bool
  pub tag : ℕ
  pub ctr : ℕ
  pub u : ℕ

-- `BTBEntry`.
pub record BtbEntry : Type 0 where
  pub actual_pc : ℕ
  pub target : ℕ
  pub valid : Bool
  pub unconditional : Bool
  pub is_call : Bool
  pub is_ret : Bool
  pub is_indirect : Bool

pub record AlignEntry : Type 0 where
  pub addr : ℕ
  pub index : ℕ
  pub times : ℕ

-- `RASEntry`.
pub record RasEntry : Type 0 where
  pub ret_pc : ℕ
  pub times : ℕ

-- `BPUSnapshot`.
pub record BpuSnapshot : Type 0 where
  pub ghr_snapshot : ℕ
  pub align_head : ℕ
  pub align_tail : ℕ
  pub ras_top : ℕ

pub record DirectionPred : Type 0 where
  pub t0 : ℕ → ℕ
  pub lht : ℕ → ℕ
  pub tn : ℕ → ℕ → TageEntry
  pub use_alt_on_na : ℕ → ℕ
  pub tmeta : ℕ → TagescMeta
  pub ghr : ℕ
  pub bank_tick_ctr : ℕ
  pub lfsr : ℕ
  pub fh_idx : ℕ → ℕ
  pub fh_tag8 : ℕ → ℕ
  pub fh_tag7 : ℕ → ℕ

pub record TargetPred : Type 0 where
  pub bht : ℕ → ℕ
  pub target_cache : ℕ → ℕ
  pub target_valid : ℕ → Bool
  pub btb : ℕ → BtbEntry
  pub ras : ℕ → RasEntry
  pub ras_top : ℕ
  pub align_queue : ℕ → AlignEntry
  pub align_head : ℕ
  pub align_tail : ℕ
  pub cond_seen : ℕ → Bool

-- The statistics on predictions.
pub record BranchCounts : Type 0 where
  pub branch_total : ℕ
  pub branch_correct : ℕ
  pub cond_total : ℕ
  pub cond_correct : ℕ
  pub jal_total : ℕ
  pub jal_correct : ℕ
  pub jalr_total : ℕ
  pub jalr_correct : ℕ
  pub miss_cnt : ℕ → ℕ
  pub miss_pc : ℕ → ℕ

pub record Bpu : Type 0 where
  pub dir : DirectionPred
  pub tgt : TargetPred
  pub bp_ckpt : ℕ → BpuSnapshot
  pub next_ckpt_id : ℕ
  pub counts : BranchCounts

-- An array with the value at one index changed.
abbrev pub put {ℓ} : {A : Type ℓ} → ℕ → A → (ℕ → A) → ℕ → A
put index value array i = if i == index then value else array i

abbrev empty_tage : TageEntry
empty_tage = record { valid = false; tag = 0; ctr = 0; u = 0 }

abbrev empty_btb : BtbEntry
empty_btb = record {
  actual_pc = 0;
  target = 0;
  valid = false;
  unconditional = false;
  is_call = false;
  is_ret = false;
  is_indirect = false;
}

-- The constructors.
abbrev pub initial : Bpu
initial = record {
  dir = record {
    t0 = λ i. 1;
    lht = λ i. 0;
    tn = λ table i. empty_tage;
    use_alt_on_na = λ i. 8;
    tmeta = λ i. no_meta;
    ghr = 0;
    bank_tick_ctr = 0;
    lfsr = lfsr_seed;
    fh_idx = λ i. 0;
    fh_tag8 = λ i. 0;
    fh_tag7 = λ i. 0;
  };
  tgt = record {
    bht = λ i. 0;
    target_cache = λ i. 0;
    target_valid = λ i. false;
    btb = λ i. empty_btb;
    ras = λ i. record { ret_pc = 0; times = 0 };
    ras_top = 0;
    align_queue = λ i. record { addr = 0; index = 0; times = 0 };
    align_head = 0;
    align_tail = 0;
    cond_seen = λ i. false;
  };
  bp_ckpt = λ i. record { ghr_snapshot = 0; align_head = 0; align_tail = 0; ras_top = 0 };
  next_ckpt_id = 0;
  counts = record {
    branch_total = 0;
    branch_correct = 0;
    cond_total = 0;
    cond_correct = 0;
    jal_total = 0;
    jal_correct = 0;
    jalr_total = 0;
    jalr_correct = 0;
    miss_cnt = λ i. 0;
    miss_pc = λ i. 0;
  };
}
