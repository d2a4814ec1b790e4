-- ===== src/Bpu/Indirect.antt =====
-- The target cache for indirect jumps over the predictor's cycles, src/BPU/BPU.cpp.
use rv32im_simulator.Prelude.{
  ℕ, ◌≡◌, refl, ◌∙◌, false, if◌then◌else◌, List, [], ◌∷◌, ◌&&◌, add32, arith,
}
use rv32im_simulator.Types.{SquashInfo}
use rv32im_simulator.Fetch.{FetchDecision}
use rv32im_simulator.Bpu
use rv32im_simulator.Bpu.{Bpu, TargetPred}
use rv32im_simulator.Bpu.Predict.{tc_usable, tc_hash, btb_index, predict, ras_last}
use rv32im_simulator.Bpu.Train.{train_target, train_cache, update, update_jump}
use rv32im_simulator.Bpu.Stack.{FetchTypeInfo, journal, scan_call, scan_ret, scan_btb, scan}
use rv32im_simulator.Bpu.Tick.{
  BpuInput, Cand, branch_cand, jump_cand, learn, take_fetch, recover, recover_check_point, tick,
  run, count_jump, count_branch,
}

-- No slot of the target cache holds a target.
abbrev Empty : TargetPred → Type 0
Empty tgt = (i : ℕ) → tgt.target_valid i ≡ false

branch_cand-direct : (input : BpuInput) (old : Bpu) → (branch_cand input old).is_indirect ≡ false
unfolding branch_cand
branch_cand-direct input old = ground arith

jump_cand-direct : (input : BpuInput) (old : Bpu) → (jump_cand input old).is_indirect ≡ false
unfolding jump_cand
jump_cand-direct input old = ground arith

learn_keeps :
    (c : Cand) (bpu : Bpu) (i : ℕ)
    → c.is_indirect ≡ false
    → (learn c bpu).tgt.target_valid i ≡ bpu.tgt.target_valid i
unfolding learn update update_jump train_target train_cache
learn_keeps c bpu i direct = ground (arith, direct)

take_fetch_keeps :
    (decision : FetchDecision) (old next : Bpu) (i : ℕ)
    → (take_fetch decision old next).tgt.target_valid i ≡ next.tgt.target_valid i
unfolding take_fetch
take_fetch_keeps decision old next i = ground arith

scan_keeps :
    (info : FetchTypeInfo) (old next : TargetPred) (i : ℕ)
    → (scan info old next).target_valid i ≡ next.target_valid i
unfolding scan scan_call scan_ret scan_btb journal
scan_keeps info old next i = ground arith

recover_keeps :
    (squash : SquashInfo) (old next : Bpu) (i : ℕ)
    → (recover squash old next).tgt.target_valid i ≡ next.tgt.target_valid i
unfolding recover recover_check_point
recover_keeps squash old next i = ground arith

tick_keeps :
    (input : BpuInput) (bpu : Bpu) (i : ℕ)
    → (tick input bpu).tgt.target_valid i ≡ bpu.tgt.target_valid i
unfolding tick
tick_keeps input bpu i =
    let counted : Bpu = record bpu { counts = count_jump input (count_branch input bpu.counts) } in
    let branch = learn (branch_cand input bpu) counted in
    let learned = learn (jump_cand input bpu) branch in
    let fetched = take_fetch input.decision bpu learned in
    let scanned : Bpu = record fetched { tgt = scan input.fetch_info bpu.tgt fetched.tgt } in
    recover_keeps input.squash bpu scanned i
    ∙ scan_keeps input.fetch_info bpu.tgt fetched.tgt i
    ∙ take_fetch_keeps input.decision bpu learned i
    ∙ learn_keeps (jump_cand input bpu) branch i (jump_cand-direct input bpu)
    ∙ learn_keeps (branch_cand input bpu) counted i (branch_cand-direct input bpu)

run-Empty : (inputs : List BpuInput) (bpu : Bpu) → Empty bpu.tgt → Empty (run inputs bpu).tgt
unfolding run
run-Empty [] bpu e = e
run-Empty (input ∷ rest) bpu e = run-Empty rest (tick input bpu) (λ i. tick_keeps input bpu i ∙ e i)

-- With no usable slot the target is that of the entry or of the return stack.
by_entry :
    (pc : ℕ) (bpu : Bpu)
    → tc_usable pc bpu.tgt ≡ false
    → let entry = bpu.tgt.btb (btb_index pc) in
      let p = predict pc bpu in
      p.predict_pc ≡ (
        if p.taken && p.btb_hit
        then if entry.is_ret then (bpu.tgt.ras (ras_last bpu.tgt)).ret_pc else entry.target
        else add32 pc 4)
unfolding predict
by_entry pc bpu off = ground (arith, off)

-- From the initial state, after any cycles with any inputs, the target cache supplies no
-- prediction: a predicted target is that of the return stack for a return and that of the branch
-- target buffer otherwise.
pub never_trained :
    (inputs : List BpuInput) (pc : ℕ)
    → let bpu = run inputs Bpu.initial in
      let entry = bpu.tgt.btb (btb_index pc) in
      let p = predict pc bpu in
      p.predict_pc ≡ (
        if p.taken && p.btb_hit
        then if entry.is_ret then (bpu.tgt.ras (ras_last bpu.tgt)).ret_pc else entry.target
        else add32 pc 4)
unfolding tc_usable
never_trained inputs pc =
    let bpu = run inputs Bpu.initial in
    let empty = run-Empty inputs Bpu.initial (λ i. refl) (tc_hash pc bpu.tgt) in
    by_entry pc bpu (ground (arith, empty))
