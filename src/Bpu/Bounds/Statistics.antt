-- ===== src/Bpu/Bounds/Statistics.antt =====
-- The widths of the statistics of src/include/BPU.hpp.
use rv32im_simulator.Prelude.{ℕ, ◌+◌, ◌^◌, ◌<◌, u64, arith}
use rv32im_simulator.Bpu.{BranchCounts, put}
use rv32im_simulator.Bpu.Predict.{btb_index}
use rv32im_simulator.Bru
use rv32im_simulator.Bpu.Tick.{BpuInput, entry_of, note_miss, count_branch, count_jump}
use rv32im_simulator.Bpu.Bounds.{put_all}

pub record CountsFit (counts : BranchCounts) : Type 0 where
  pub branch_total : counts.branch_total < 2 ^ 64
  pub branch_correct : counts.branch_correct < 2 ^ 64
  pub cond_total : counts.cond_total < 2 ^ 64
  pub cond_correct : counts.cond_correct < 2 ^ 64
  pub jal_total : counts.jal_total < 2 ^ 64
  pub jal_correct : counts.jal_correct < 2 ^ 64
  pub jalr_total : counts.jalr_total < 2 ^ 64
  pub jalr_correct : counts.jalr_correct < 2 ^ 64
  pub miss_cnt : (i : ℕ) → counts.miss_cnt i < 2 ^ 64

missed_below :
    (pc : ℕ) (miss_cnt : ℕ → ℕ)
    → ((i : ℕ) → miss_cnt i < 2 ^ 64)
    → (i : ℕ) → put (btb_index pc) (u64 (miss_cnt (btb_index pc) + 1)) miss_cnt i < 2 ^ 64
missed_below pc miss_cnt h = put_all (λ n. n < 2 ^ 64) _ _ miss_cnt h (omega arith)

pub count_branch-CountsFit :
    (input : BpuInput) (counts : BranchCounts)
    → CountsFit counts
    → CountsFit (count_branch input counts)
unfolding count_branch note_miss
count_branch-CountsFit input counts c = record {
  branch_total = ground (arith, c.branch_total);
  branch_correct = ground (arith, c.branch_correct);
  cond_total = ground (arith, c.cond_total);
  cond_correct = ground (arith, c.cond_correct);
  jal_total = ground (arith, c.jal_total);
  jal_correct = ground (arith, c.jal_correct);
  jalr_total = ground (arith, c.jalr_total);
  jalr_correct = ground (arith, c.jalr_correct);
  miss_cnt = λ i.
      ground (
        arith,
        c.miss_cnt i,
        missed_below (Bru.head_pc_from input.bru) counts.miss_cnt c.miss_cnt i,
      );
}

pub count_jump-CountsFit :
    (input : BpuInput) (counts : BranchCounts)
    → CountsFit counts
    → CountsFit (count_jump input counts)
unfolding count_jump note_miss
count_jump-CountsFit input counts c = record {
  branch_total = ground (arith, c.branch_total);
  branch_correct = ground (arith, c.branch_correct);
  cond_total = ground (arith, c.cond_total);
  cond_correct = ground (arith, c.cond_correct);
  jal_total = ground (arith, c.jal_total);
  jal_correct = ground (arith, c.jal_correct);
  jalr_total = ground (arith, c.jalr_total);
  jalr_correct = ground (arith, c.jalr_correct);
  miss_cnt = λ i. ground (
    arith,
    c.miss_cnt i,
    missed_below (entry_of input input.cdb_out.rob_tag).pc counts.miss_cnt c.miss_cnt i,
  );
}
