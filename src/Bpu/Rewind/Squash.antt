-- ===== src/Bpu/Rewind/Squash.antt =====
-- A squash of src/BPU/BPU.cpp that goes back to a checkpoint.
use rv32im_simulator.Prelude.{
  ℕ, suc, ◌+◌, ◌-◌, ◌^◌, ◌<◌, ◌≤◌, ◌≡◌, refl, ap, ◌∙◌, true, false, ◌&&◌, ◌||◌, ◌==◌, if◌then◌else◌,
  u8, arith,
}
use rv32im_simulator.Types.{SquashInfo}
use rv32im_simulator.Bpu.{Bpu, TargetPred}
use rv32im_simulator.Bpu.Fold.{recover_folds}
use rv32im_simulator.Bpu.Stack.{FetchTypeInfo, scan_btb, scan}
use rv32im_simulator.Bpu.Tick.{
  BpuInput, branch_cand, jump_cand, learn, take_fetch, recover, recover_check_point,
  snapshot_check_point, tick, count_jump, count_branch,
}
use rv32im_simulator.Bpu.Rewind.{SameStack, Rewinds, start-Rewinds}
use rv32im_simulator.Bpu.Rewind.Cycle.{
  logs, has_room, scan-Rewinds, learn_keeps_ckpt, fetched, fetched-SameStack, then-SameStack,
}

abbrev lines_after : ℕ → FetchTypeInfo → TargetPred → ℕ
lines_after d info tgt = if logs info tgt then suc d else d

-- A cycle without a squash that has room for the instruction that it scans.
pub record GoesOn (d : ℕ) (input : BpuInput) (bpu : Bpu) : Type 0 where
  pub no_squash : input.squash.need_squash ≡ false
  pub room : has_room d input.fetch_info bpu.tgt ≡ true

-- The states after a fetch that takes the checkpoint `id` in the state `saved`, until another fetch takes it;
-- the number is that of the lines that the journal has since.
pub data Speculates (id : ℕ) (saved : Bpu) : ℕ → Bpu → Type 0 where
  starts :
      (input : BpuInput)
      → GoesOn 0 input saved
      → (input.decision.valid && (input.decision.ckpt_id == id)) ≡ true
      → Speculates id saved (lines_after 0 input.fetch_info saved.tgt) (tick input saved)
  continues :
      {d : ℕ}
      → {bpu : Bpu} → Speculates id saved d bpu
      → (input : BpuInput) → GoesOn d input bpu
      → (input.decision.valid && (input.decision.ckpt_id == id)) ≡ false
      → Speculates id saved (lines_after d input.fetch_info bpu.tgt) (tick input bpu)

-- The checkpoint that a fetch takes holds the state before the cycle, and every other one is kept.
fetched_ckpt :
    (id : ℕ) (input : BpuInput) (bpu : Bpu)
    → (fetched input bpu).bp_ckpt id ≡ (
        if input.decision.valid && (input.decision.ckpt_id == id)
        then snapshot_check_point bpu
        else bpu.bp_ckpt id)
unfolding take_fetch
fetched_ckpt id input bpu =
    let branch =
      learn_keeps_ckpt (branch_cand input bpu)
        (record bpu { counts = count_jump input (count_branch input bpu.counts) }) id in
    let jump =
      learn_keeps_ckpt (jump_cand input bpu)
        (learn (branch_cand input bpu)
          (record bpu { counts = count_jump input (count_branch input bpu.counts) }))
        id in
    ground (arith, branch, jump)

recover_calm :
    (squash : SquashInfo) (old next : Bpu)
    → squash.need_squash ≡ false
    → recover squash old next ≡ next
unfolding recover
recover_calm squash old next calm = rw (calm) refl

-- A cycle without a squash ends with its scan.
tick_scanned :
    (input : BpuInput) (bpu : Bpu)
    → input.squash.need_squash ≡ false
    → tick input bpu
      ≡ record (fetched input bpu) { tgt = scan input.fetch_info bpu.tgt (fetched input bpu).tgt }
unfolding tick
tick_scanned input bpu calm = recover_calm input.squash bpu _ calm

module _ (id : ℕ) (saved : Bpu) where
  tick-Rewinds :
      (d : ℕ) (input : BpuInput) (bpu : Bpu)
      → GoesOn d input bpu
      → Rewinds saved.tgt bpu.tgt d
      → Rewinds saved.tgt (tick input bpu).tgt (lines_after d input.fetch_info bpu.tgt)
  tick-Rewinds d input bpu g w = rw (tick_scanned input bpu g.no_squash) (
      scan-Rewinds saved.tgt bpu.tgt (fetched input bpu).tgt d w (fetched-SameStack input bpu)
        input.fetch_info g.room)

  speculates :
      (d : ℕ) (bpu : Bpu)
      → saved.tgt.align_tail < 2 ^ 8
      → saved.tgt.ras_top ≤ 8
      → Speculates id saved d bpu
      → (Rewinds saved.tgt bpu.tgt d) × (bpu.bp_ckpt id ≡ snapshot_check_point saved)
  speculates _ _ small depth (starts input g takes) = (
    tick-Rewinds 0 input saved g (start-Rewinds saved.tgt small depth),
    rw (tick_scanned input saved g.no_squash, fetched_ckpt id input saved, takes) refl,
  )
  speculates _ _ small depth (continues {d} {bpu} before input g keeps) =
      let earlier = speculates d bpu small depth before in
      (
        tick-Rewinds d input bpu g earlier.0,
        rw (tick_scanned input bpu g.no_squash, fetched_ckpt id input bpu, keeps) earlier.1,
      )

-- Return stack, ends of the journal and history are those of the checkpoint.
pub record Restored (saved after : Bpu) : Type 0 where
  pub ras_top : after.tgt.ras_top ≡ saved.tgt.ras_top
  pub ras : (x : ℕ) → x < saved.tgt.ras_top → after.tgt.ras x ≡ saved.tgt.ras x
  pub align_head : after.tgt.align_head ≡ saved.tgt.align_head
  pub align_tail : after.tgt.align_tail ≡ saved.tgt.align_tail
  pub ghr : after.dir.ghr ≡ saved.dir.ghr

recover-Restored :
    (squash : SquashInfo) (saved old next : Bpu) (d : ℕ)
    → squash.need_squash ≡ true
    → old.bp_ckpt squash.ckpt_id ≡ snapshot_check_point saved
    → saved.tgt.align_tail < 2 ^ 8
    → Rewinds saved.tgt old.tgt d
    → SameStack next.tgt old.tgt
    → Restored saved (recover squash old next)
unfolding recover recover_check_point snapshot_check_point recover_folds
recover-Restored squash saved old next d need ckpt small w same =
    let dist : u8 (old.tgt.align_tail + 2 ^ 8 - saved.tgt.align_tail) ≡ d =
      (let short = w.short in let tail = w.tail in omega arith) in
    record {
      ras_top = rw (need, ckpt) refl;
      ras = λ x l. rw (need, ckpt, dist) (w.back next.tgt.ras (λ y yl. same.ras y) x l);
      align_head = rw (need, ckpt) refl;
      align_tail = rw (need, ckpt) refl;
      ghr = rw (need, ckpt) refl;
    }

quiet_scan-SameStack :
    (info : FetchTypeInfo) (old next : TargetPred)
    → (info.valid && (info.is_call || info.is_ret)) ≡ false
    → SameStack (scan info old next) next
unfolding scan scan_btb
quiet_scan-SameStack info old next quiet = record {
  ras = λ x. ground arith;
  ras_top = ground arith;
  align_queue = λ x. ground arith;
  align_tail = ground arith;
}

-- Let a fetch take the checkpoint `id` in a state whose return stack is at most 8 deep and whose
-- journal counter is a byte, and any cycles without a squash follow in which no other fetch takes
-- that checkpoint, the journal gets at most 16 lines and the stack no more than 8 entries. Then a
-- squash that goes back to `id`, in a cycle that scans no call or return, restores the top of the
-- return stack, every entry below it, the ends of the journal and the global history to what they
-- were before the fetch.
pub squash-Restored :
    (id : ℕ) (saved bpu : Bpu) (d : ℕ) (input : BpuInput)
    → saved.tgt.align_tail < 2 ^ 8
    → saved.tgt.ras_top ≤ 8
    → Speculates id saved d bpu
    → input.squash.need_squash ≡ true
    → input.squash.ckpt_id ≡ id
    → (input.fetch_info.valid && (input.fetch_info.is_call || input.fetch_info.is_ret)) ≡ false
    → Restored saved (tick input bpu)
unfolding tick
squash-Restored id saved bpu d input small depth before need same_id quiet =
    let known = speculates id saved d bpu small depth before in
    let ckpt = ap bpu.bp_ckpt same_id ∙ known.1 in
    recover-Restored input.squash saved bpu _ d need ckpt small known.0 (
      then-SameStack (quiet_scan-SameStack input.fetch_info bpu.tgt (fetched input bpu).tgt quiet)
        (fetched-SameStack input bpu))
