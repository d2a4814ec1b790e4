-- ===== src/Bpu/Bounds/Cycle.antt =====
-- The widths of the predictor's registers over its cycles, src/BPU/BPU.cpp.
use rv32im_simulator.Prelude.{ℕ, ◌+◌, ◌-◌, ◌^◌, ◌<◌, Bool, List, [], ◌∷◌, u8, arith}
use rv32im_simulator.Types.{SquashInfo}
use rv32im_simulator.Fetch.{TagescMeta, FetchDecision}
use rv32im_simulator.Bpu
use rv32im_simulator.Bpu.{
  Bpu, DirectionPred, TargetPred, TageEntry, tage_idx_bit, tage_tag_bit, put,
}
use rv32im_simulator.Bpu.Bounds.{DirFits, put_all, on_if}
use rv32im_simulator.Bpu.Bounds.History.{shift_ghr-DirFits, recover_folds-DirFits, with_tmeta}
use rv32im_simulator.Bpu.Bounds.Stack.{
  TargetFits, SnapshotFits, push-Widths, scan-TargetFits, undo_loop-RasFits,
}
use rv32im_simulator.Bpu.Bounds.Statistics.{CountsFit, count_branch-CountsFit, count_jump-CountsFit}
use rv32im_simulator.Bpu.Bounds.Training.{train_dir-DirFits}
use rv32im_simulator.Bpu.Train.{train_target, train_cache, update, update_jump, trained_hit}
use rv32im_simulator.Bpu.Tick.{
  BpuInput, Cand, branch_cand, jump_cand, learn, snapshot_check_point, take_fetch, recover,
  recover_check_point, tick, run, count_jump, count_branch,
}

-- The registers of the predictor, its checkpoints and its statistics fit their widths.
pub record Fits (bpu : Bpu) : Type 0 where
  pub dir : DirFits bpu.dir
  pub tgt : TargetFits bpu.tgt
  pub bp_ckpt : (i : ℕ) → SnapshotFits (bpu.bp_ckpt i)
  pub next_ckpt_id : bpu.next_ckpt_id < 32
  pub counts : CountsFit bpu.counts

initial-Fits : Fits Bpu.initial
initial-Fits = record {
  dir = record {
    t0 = λ i. omega arith;
    lht = λ i. omega arith;
    tn = λ table i. record { ctr = omega arith; u = omega arith; tag = omega arith };
    use_alt_on_na = λ i. omega arith;
    bank_tick_ctr = omega arith;
    lfsr_high = omega arith;
    lfsr_low = omega arith;
    ghr = omega arith;
    fh_idx = λ i. omega arith;
    fh_tag8 = λ i. omega arith;
    fh_tag7 = λ i. omega arith;
  };
  tgt = record {
    bht_fits = λ i. omega arith;
    ras_fits = λ i. record { ret_pc = omega arith; times = omega arith };
    journal_fits = λ i. record { addr = omega arith; index = omega arith; times = omega arith };
    top = omega arith;
    head = omega arith;
    tail = omega arith;
  };
  bp_ckpt = λ i. record {
    ghr_snapshot = omega arith;
    align_head = omega arith;
    align_tail = omega arith;
    ras_top = omega arith;
  };
  next_ckpt_id = omega arith;
  counts = record {
    branch_total = omega arith;
    branch_correct = omega arith;
    cond_total = omega arith;
    cond_correct = omega arith;
    jal_total = omega arith;
    jal_correct = omega arith;
    jalr_total = omega arith;
    jalr_correct = omega arith;
    miss_cnt = λ i. omega arith;
  };
}

update-Fits :
    (pc : ℕ) (taken : Bool) (target ghr : ℕ) (meta : TagescMeta) (bpu : Bpu)
    → Fits bpu
    → Fits (update pc taken target ghr meta bpu)
unfolding update train_target
update-Fits pc taken target ghr meta bpu f = record {
  dir = train_dir-DirFits pc taken ghr meta (trained_hit pc ghr bpu.dir) bpu.dir f.dir;
  tgt = push-Widths _ _ (on_if TargetFits taken _ _ f.tgt f.tgt);
  bp_ckpt = f.bp_ckpt;
  next_ckpt_id = f.next_ckpt_id;
  counts = f.counts;
}

update_jump-Fits :
    (pc target : ℕ) (is_call is_ret is_indirect : Bool) (bpu : Bpu)
    → Fits bpu
    → Fits (update_jump pc target is_call is_ret is_indirect bpu)
unfolding update_jump train_cache
update_jump-Fits pc target is_call is_ret is_indirect bpu f = record {
  dir = f.dir;
  tgt = push-Widths _ _ (on_if TargetFits _ _ _ f.tgt f.tgt);
  bp_ckpt = f.bp_ckpt;
  next_ckpt_id = f.next_ckpt_id;
  counts = f.counts;
}

learn-Fits : (c : Cand) (bpu : Bpu) → Fits bpu → Fits (learn c bpu)
unfolding learn
learn-Fits c bpu f = on_if Fits _ _ _ f (
    on_if Fits _ _ _ (update-Fits c.pc c.taken c.target c.ghr c.meta bpu f)
      (update_jump-Fits c.pc c.target c.is_call c.is_ret c.is_indirect bpu f))

snapshot-Fits : (bpu : Bpu) → Fits bpu → SnapshotFits (snapshot_check_point bpu)
unfolding snapshot_check_point
snapshot-Fits bpu f = record {
  ghr_snapshot = f.dir.ghr;
  align_head = f.tgt.head;
  align_tail = f.tgt.tail;
  ras_top = f.tgt.top;
}

take_fetch-Fits :
    (decision : FetchDecision) (old next : Bpu)
    → Fits old
    → Fits next
    → Fits (take_fetch decision old next)
unfolding take_fetch
take_fetch-Fits decision old next o f =
    let saved = with_tmeta next.dir (put decision.ckpt_id decision.meta next.dir.tmeta) f.dir in
    on_if Fits _ _ _
      (record {
        dir = on_if DirFits _ _ _ (shift_ghr-DirFits decision.shift_value _ saved) saved;
        tgt = f.tgt;
        bp_ckpt =
            put_all SnapshotFits decision.ckpt_id _ next.bp_ckpt f.bp_ckpt (snapshot-Fits old o);
        next_ckpt_id = omega arith;
        counts = f.counts;
      })
      f

recover-Fits :
    (squash : SquashInfo) (old next : Bpu) → Fits old → Fits next → Fits (recover squash old next)
unfolding recover recover_check_point
recover-Fits squash old next o f =
    let saved = o.bp_ckpt squash.ckpt_id in
    let dist = u8 (old.tgt.align_tail + 2 ^ 8 - (old.bp_ckpt squash.ckpt_id).align_tail) in
    on_if Fits _ _ _
      (record {
        dir = recover_folds-DirFits next.dir _ saved.ghr_snapshot f.dir;
        tgt = record {
          bht_fits = f.tgt.bht_fits;
          ras_fits = undo_loop-RasFits old.tgt o.tgt dist 16 0 next.tgt.ras f.tgt.ras_fits;
          journal_fits = f.tgt.journal_fits;
          top = saved.ras_top;
          head = saved.align_head;
          tail = saved.align_tail;
        };
        bp_ckpt = f.bp_ckpt;
        next_ckpt_id = omega arith;
        counts = f.counts;
      })
      f

tick-Fits : (input : BpuInput) (bpu : Bpu) → Fits bpu → Fits (tick input bpu)
unfolding tick
tick-Fits input bpu f =
    let counted : Bpu = record bpu { counts = count_jump input (count_branch input bpu.counts) } in
    let c : Fits counted = record {
      dir = f.dir;
      tgt = f.tgt;
      bp_ckpt = f.bp_ckpt;
      next_ckpt_id = f.next_ckpt_id;
      counts = count_jump-CountsFit input _ (count_branch-CountsFit input _ f.counts);
    } in
    let learned =
      learn-Fits (jump_cand input bpu) _ (learn-Fits (branch_cand input bpu) counted c) in
    let fetched = take_fetch-Fits input.decision bpu _ f learned in
    recover-Fits input.squash bpu _ f (record {
      dir = fetched.dir;
      tgt =
          scan-TargetFits bpu.tgt f.tgt input.fetch_info
            (take_fetch input.decision bpu
              (learn (jump_cand input bpu) (learn (branch_cand input bpu) counted))).tgt
            fetched.tgt;
      bp_ckpt = fetched.bp_ckpt;
      next_ckpt_id = fetched.next_ckpt_id;
      counts = fetched.counts;
    })

run-kept : (inputs : List BpuInput) (bpu : Bpu) → Fits bpu → Fits (run inputs bpu)
unfolding run
run-kept [] bpu f = f
run-kept (input ∷ rest) bpu f = run-kept rest (tick input bpu) (tick-Fits input bpu f)

-- From the initial state, after any cycles with any inputs: direction counters fit 2 and 3 bits,
-- usefulness 2 bits, the counters of the use of alternatives 4, tags 8, local histories 12 and 8,
-- the history 64, folded views 7 and 8, the numbers of predictions 64; return addresses and
-- repetition counts of the return stack and of its journal fit 32 bits, the positions of both 8,
-- and the places in the journal 3; so do history and positions in every checkpoint; checkpoint ids
-- are below 32, the counter of updates is below banktick_max, and the pseudorandom register fits 8
-- bits and is not zero.
pub run-Fits : (inputs : List BpuInput) → Fits (run inputs Bpu.initial)
run-Fits inputs = run-kept inputs Bpu.initial initial-Fits
