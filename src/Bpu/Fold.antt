-- ===== src/Bpu/Fold.antt =====
-- The folded views of the global history in src/BPU/BPU.cpp: their definition from the history, and the
-- step that keeps them when the history is shifted.
use rv32im_simulator.Prelude.{
  ℕ, zero, suc, ◌+◌, ◌-◌, ◌/◌, ◌%◌, ◌<<<◌, ◌>>>◌, bit_or, bit_xor, Bool, if◌then◌else◌, low_bits,
  u32, u64,
}
use rv32im_simulator.Bpu.{DirectionPred, tage_hist, tage_idx_bit, tage_tag_bit}

-- The loop of `refoldViewT` over the chunks of the history.
unfoldable refold_loop : ℕ → ℕ → ℕ → ℕ → ℕ → ℕ
refold_loop fold_width zero s ghr r = r
refold_loop fold_width (suc chunks) s ghr r =
    refold_loop fold_width chunks (s + fold_width) ghr
      (bit_xor r (low_bits fold_width (u32 (ghr >>> s))))

unfoldable pub refold_view : ℕ → ℕ → ℕ → ℕ
unfolding refold_loop
refold_view hist_len fold_width ghr =
    low_bits fold_width (
      refold_loop fold_width ((hist_len + fold_width - 1) / fold_width) 0 (low_bits hist_len ghr) 0)

-- `foldIdx`, `foldTag8` and `foldTag7`.
unfoldable pub fold_idx : ℕ → ℕ → ℕ
unfolding refold_view
fold_idx table ghr = refold_view (tage_hist table) tage_idx_bit ghr

unfoldable pub fold_tag8 : ℕ → ℕ → ℕ
unfolding refold_view
fold_tag8 table ghr = refold_view (tage_hist table) tage_tag_bit ghr

unfoldable pub fold_tag7 : ℕ → ℕ → ℕ
unfolding refold_view
fold_tag7 table ghr = refold_view (tage_hist table) (tage_tag_bit - 1) ghr

abbrev pub bit_of : Bool → ℕ
bit_of taken = if taken then 1 else 0

-- The bit that leaves the window of a table.
abbrev leaving : ℕ → ℕ → ℕ
leaving table ghr = low_bits 1 (u32 (ghr >>> (tage_hist table - 1)))

-- One step of one view: rotate, take in the new bit, and take out the one that leaves the window.
unfoldable pub step_fold : ℕ → ℕ → ℕ → ℕ → ℕ → ℕ
step_fold width wrap b disc v =
    low_bits width
      (bit_xor (bit_xor (low_bits width (bit_or (v <<< 1) (v >>> (width - 1)))) b) (disc <<< wrap))

unfoldable pub step_folds : ℕ → Bool → DirectionPred → DirectionPred
unfolding step_fold
step_folds before taken dir =
    let b = bit_of taken in
    record dir {
      fh_idx = λ i.
          step_fold tage_idx_bit (tage_hist i % tage_idx_bit) b (leaving i before) (dir.fh_idx i);
      fh_tag8 = λ i.
          step_fold tage_tag_bit (tage_hist i % tage_tag_bit) b (leaving i before) (dir.fh_tag8 i);
      fh_tag7 = λ i.
          step_fold (tage_tag_bit - 1) (tage_hist i % (tage_tag_bit - 1)) b (leaving i before)
            (dir.fh_tag7 i);
    }

-- The mask of the history is all ones.
unfoldable pub shift_ghr : Bool → DirectionPred → DirectionPred
unfolding step_folds
shift_ghr taken dir =
    step_folds dir.ghr taken (record dir { ghr = bit_or (u64 (dir.ghr <<< 1)) (bit_of taken) })

unfoldable pub recover_folds : DirectionPred → DirectionPred
unfolding fold_idx fold_tag8 fold_tag7
recover_folds dir = record dir {
  fh_idx = λ i. fold_idx i dir.ghr;
  fh_tag8 = λ i. fold_tag8 i dir.ghr;
  fh_tag7 = λ i. fold_tag7 i dir.ghr;
}
