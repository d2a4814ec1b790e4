-- ===== src/Bpu/Bounds/History.antt =====
-- The shift of the global history in src/BPU/BPU.cpp, the return to a checkpoint's, and their widths.
use rv32im_simulator.Prelude.{
  ℕ, ◌*◌, ◌^◌, ◌<◌, ◌<<<◌, ◌≡◌, bit_or, inl, inr, Bool, Bool-cases, low_bits, u64, arith,
}
use rv32im_simulator.Prelude.Bits.{bit_or_one, bit_or-zero}
use rv32im_simulator.Fetch.{TagescMeta}
use rv32im_simulator.Bpu.{DirectionPred}
use rv32im_simulator.Bpu.Bounds.{DirFits}
use rv32im_simulator.Bpu.Fold.{
  bit_of, fold_idx, fold_tag8, fold_tag7, refold_view, step_fold, step_folds, shift_ghr,
  recover_folds,
}

-- The history has no bit above its word, whichever bit comes in.
shifted_below : (taken : Bool) (ghr : ℕ) → bit_or (u64 (ghr <<< 1)) (bit_of taken) < 2 ^ 64
shifted_below taken ghr =
    let x = low_bits 63 ghr in
    let even : u64 (ghr <<< 1) ≡ x * 2 = omega arith in
    elim (Bool-cases taken) [
      | inl e ↦ rw (e, even) (omega (arith, bit_or_one x))
      | inr e ↦ rw (e, even) (omega (arith, bit_or-zero (x * 2) (x * 2) (omega arith)))
    ]

pub shift_ghr-DirFits :
    (taken : Bool) (dir : DirectionPred) → DirFits dir → DirFits (shift_ghr taken dir)
unfolding shift_ghr step_folds step_fold
shift_ghr-DirFits taken dir d = record {
  t0 = d.t0;
  lht = d.lht;
  tn = d.tn;
  use_alt_on_na = d.use_alt_on_na;
  bank_tick_ctr = d.bank_tick_ctr;
  lfsr_high = d.lfsr_high;
  lfsr_low = d.lfsr_low;
  ghr = shifted_below taken dir.ghr;
  fh_idx = λ i. omega arith;
  fh_tag8 = λ i. omega arith;
  fh_tag7 = λ i. omega arith;
}

-- The history that a checkpoint holds, and its folded views.
pub recover_folds-DirFits :
    (dir : DirectionPred) (ghr : ℕ)
    → ghr < 2 ^ 64
    → DirFits dir
    → DirFits (recover_folds (record dir { ghr = ghr }))
unfolding recover_folds fold_idx fold_tag8 fold_tag7 refold_view
recover_folds-DirFits dir ghr below d = record {
  t0 = d.t0;
  lht = d.lht;
  tn = d.tn;
  use_alt_on_na = d.use_alt_on_na;
  bank_tick_ctr = d.bank_tick_ctr;
  lfsr_high = d.lfsr_high;
  lfsr_low = d.lfsr_low;
  ghr = below;
  fh_idx = λ i. omega arith;
  fh_tag8 = λ i. omega arith;
  fh_tag7 = λ i. omega arith;
}

-- The data that a prediction leaves for its training has no width of its own.
pub with_tmeta :
    (dir : DirectionPred) (tmeta : ℕ → TagescMeta)
    → DirFits dir
    → DirFits (record dir { tmeta = tmeta })
with_tmeta dir tmeta d = record {
  t0 = d.t0;
  lht = d.lht;
  tn = d.tn;
  use_alt_on_na = d.use_alt_on_na;
  bank_tick_ctr = d.bank_tick_ctr;
  lfsr_high = d.lfsr_high;
  lfsr_low = d.lfsr_low;
  ghr = d.ghr;
  fh_idx = d.fh_idx;
  fh_tag8 = d.fh_tag8;
  fh_tag7 = d.fh_tag7;
}
