-- ===== src/Bpu/Counts.antt =====
-- The statistics of the predictor in src/include/BPU.hpp, by kind of branch.
use rv32im_simulator.Prelude.{◌+◌, ◌≡◌, refl, ◌∙◌, List, [], ◌∷◌, u64, arith}
use rv32im_simulator.Types.{SquashInfo}
use rv32im_simulator.Fetch.{FetchDecision}
use rv32im_simulator.Bpu
use rv32im_simulator.Bpu.{Bpu, BranchCounts}
use rv32im_simulator.Bpu.Train.{update, update_jump}
use rv32im_simulator.Bpu.Stack.{scan}
use rv32im_simulator.Bpu.Tick.{
  BpuInput, Cand, branch_cand, jump_cand, note_miss, count_branch, count_jump, learn, take_fetch,
  recover, recover_check_point, tick, run,
}

-- The counts of the three kinds add up to the total, for all branches and for the correct ones.
pub record AddsUp (counts : BranchCounts) : Type 0 where
  pub total :
      u64 counts.branch_total ≡ u64 (counts.cond_total + counts.jal_total + counts.jalr_total)
  pub correct :
      u64 counts.branch_correct
      ≡ u64 (counts.cond_correct + counts.jal_correct + counts.jalr_correct)

count_branch-AddsUp :
    (input : BpuInput) (counts : BranchCounts) → AddsUp counts → AddsUp (count_branch input counts)
unfolding count_branch note_miss
count_branch-AddsUp input counts a = record {
  total = ground (arith, a.total);
  correct = ground (arith, a.correct);
}

count_jump-AddsUp :
    (input : BpuInput) (counts : BranchCounts) → AddsUp counts → AddsUp (count_jump input counts)
unfolding count_jump note_miss
count_jump-AddsUp input counts a = record {
  total = ground (arith, a.total);
  correct = ground (arith, a.correct);
}

-- The rest of a cycle leaves the statistics.
learn_counts : (c : Cand) (bpu : Bpu) → (learn c bpu).counts ≡ bpu.counts
unfolding learn update update_jump
learn_counts c bpu = ground arith

take_fetch_counts :
    (decision : FetchDecision) (old next : Bpu)
    → (take_fetch decision old next).counts ≡ next.counts
unfolding take_fetch
take_fetch_counts decision old next = ground arith

recover_counts :
    (squash : SquashInfo) (old next : Bpu) → (recover squash old next).counts ≡ next.counts
unfolding recover recover_check_point
recover_counts squash old next = ground arith

tick_counts :
    (input : BpuInput) (bpu : Bpu)
    → (tick input bpu).counts ≡ count_jump input (count_branch input bpu.counts)
unfolding tick
tick_counts input bpu =
    let counted : Bpu = record bpu { counts = count_jump input (count_branch input bpu.counts) } in
    let branch = learn (branch_cand input bpu) counted in
    let learned = learn (jump_cand input bpu) branch in
    let fetched = take_fetch input.decision bpu learned in
    let scanned : Bpu = record fetched { tgt = scan input.fetch_info bpu.tgt fetched.tgt } in
    recover_counts input.squash bpu scanned
    ∙ take_fetch_counts input.decision bpu learned
    ∙ learn_counts (jump_cand input bpu) branch
    ∙ learn_counts (branch_cand input bpu) counted

run_keeps :
    (inputs : List BpuInput) (bpu : Bpu) → AddsUp bpu.counts → AddsUp (run inputs bpu).counts
unfolding run
run_keeps [] bpu a = a
run_keeps (input ∷ rest) bpu a = run_keeps rest (tick input bpu) (
    rw (tick_counts input bpu) (count_jump-AddsUp input _ (count_branch-AddsUp input bpu.counts a)))

-- From the initial state, after any cycles with any inputs, the numbers of conditional branches,
-- direct and indirect jumps add up modulo 2 ^ 64 to the number of branches, and so do the numbers
-- of the correctly predicted ones.
pub run-AddsUp : (inputs : List BpuInput) → AddsUp (run inputs Bpu.initial).counts
run-AddsUp inputs = run_keeps inputs Bpu.initial (record { total = refl; correct = refl })
