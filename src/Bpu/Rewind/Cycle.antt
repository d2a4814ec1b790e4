-- ===== src/Bpu/Rewind/Cycle.antt =====
-- The return stack over the predictor's cycles, from a checkpoint to a squash that goes back to it.
use rv32im_simulator.Prelude.{
  ℕ, suc, ◌+◌, ◌<◌, ◌≤◌, ◌≡◌, ◌≢◌, refl, ap, ◌∙◌, Bool, true, false, not, ◌&&◌, ◌==◌, ltb,
  if◌then◌else◌, inl, inr, ◌⊎◌, Bool-cases, add32, u8, arith,
}
use rv32im_simulator.Fetch.{FetchDecision}
use rv32im_simulator.Bpu.{Bpu, TargetPred, RasEntry, put}
use rv32im_simulator.Bpu.Predict.{ras_slot, ras_last}
use rv32im_simulator.Bpu.Train.{update, update_jump, train_target, train_cache}
use rv32im_simulator.Bpu.Stack.{FetchTypeInfo, journal, scan_call, scan_ret, scan_btb, scan}
use rv32im_simulator.Bpu.Tick.{
  BpuInput, Cand, branch_cand, jump_cand, learn, take_fetch, count_jump, count_branch,
}
use rv32im_simulator.Bpu.Rewind.{put_agree, SameStack, Rewinds, logged-Rewinds, unlogged-Rewinds}

-- A call with the return address that is on top already.
abbrev repeats : FetchTypeInfo → TargetPred → Bool
repeats info tgt = ltb 0 tgt.ras_top && ((tgt.ras (ras_last tgt)).ret_pc == add32 info.pc 4)

-- Whether the scan of an instruction writes a line of the journal.
unfoldable pub logs : FetchTypeInfo → TargetPred → Bool
logs info tgt =
    info.valid && (if info.is_call then repeats info tgt else info.is_ret && ltb 0 tgt.ras_top)

-- The journal of `d` lines has room for its line, and the stack for its entry.
unfoldable pub has_room : ℕ → FetchTypeInfo → TargetPred → Bool
unfolding logs
has_room d info tgt =
    (if logs info tgt then ltb d 16 else true)
    && (if info.valid && info.is_call && not (repeats info tgt) then ltb tgt.ras_top 8 else true)

put_other :
    (index : ℕ) (value : RasEntry) (r : ℕ → RasEntry) (y : ℕ)
    → y ≢ index
    → put index value r y ≡ r y
put_other index value r y n = let other : (y == index) ≡ false = ground arith in rw (other) refl

module _ (saved old next : TargetPred) (d : ℕ) (w : Rewinds saved old d)
    (same : SameStack next old) where
  -- A call, a return from a stack with an entry, another control transfer, or none.
  scan_cases :
      (info : FetchTypeInfo)
      → ((info.valid ≡ true)
          × (info.is_call ≡ true)
          × (scan info old next ≡ scan_btb info (scan_call (add32 info.pc 4) old next)))
        ⊎ (((ltb 0 old.ras_top ≡ true)
              × (logs info old ≡ true)
              × (scan info old next ≡ scan_btb info (scan_ret old next)))
            ⊎ (((logs info old ≡ false) × (scan info old next ≡ scan_btb info next))
                ⊎ ((logs info old ≡ false) × (scan info old next ≡ next))))
  unfolding scan logs
  scan_cases info = elim (Bool-cases info.valid) [
    | inr idle ↦ inr (inr (inr (rw (idle) refl, rw (idle) refl)))
    | inl valid ↦ elim (Bool-cases info.is_call) [
      | inl call ↦ inl (valid, call, rw (valid, call) refl)
      | inr other ↦ elim (Bool-cases (info.is_ret && ltb 0 old.ras_top)) [
        | inl ret ↦
            inr (inl (ground arith, rw (valid, other, ret) refl, rw (valid, other, ret) refl))
        | inr neither ↦
            inr (inr (inl (rw (valid, other, neither) refl, rw (valid, other, neither) refl)))
      ]
    ]
  ]

  call-Rewinds :
      (info : FetchTypeInfo)
      → info.valid ≡ true
      → info.is_call ≡ true
      → has_room d info old ≡ true
      → Rewinds saved (scan_call (add32 info.pc 4) old next) (if logs info old then suc d else d)
  unfolding has_room scan_call journal
  call-Rewinds info valid call room = elim (Bool-cases (repeats info old)) [
    | inl e ↦
        let depth = w.depth in
        let top = same.ras_top in
        rw (valid, call, e)
          (logged-Rewinds saved old _ d w (ground arith) (ground arith)
            (ap (λ t. u8 (t + 1)) same.align_tail) (put_agree _ _ _ _ same.align_queue)
            (omega arith) (omega arith)
            (λ y yl n. put_other (ras_last old) _ next.ras y n ∙ same.ras y))
    | inr e ↦
        let depth = w.depth in
        let top = same.ras_top in
        let fits : old.ras_top < 8 = ground arith in
        rw (valid, call, e)
          (unlogged-Rewinds saved old _ d w (omega arith) (omega arith) same.align_tail
            same.align_queue
            (λ y yl.
              let other : y ≢ ras_slot old.ras_top = ground arith in
              put_other _ _ next.ras y other ∙ same.ras y))
  ]

  ret-Rewinds : ltb 0 old.ras_top ≡ true → suc d ≤ 16 → Rewinds saved (scan_ret old next) (suc d)
  unfolding scan_ret journal
  ret-Rewinds some_top room =
      let depth = w.depth in
      let top = same.ras_top in
      elim (Bool-cases (ltb 1 (old.ras (ras_last old)).times)) [
        | inl e ↦ rw (e) (
            logged-Rewinds saved old _ d w room (ground arith)
              (ap (λ t. u8 (t + 1)) same.align_tail) (put_agree _ _ _ _ same.align_queue)
              (omega arith) (omega arith)
              (λ y yl n. put_other (ras_last old) _ next.ras y n ∙ same.ras y))
        | inr e ↦
            let positive : 1 ≤ old.ras_top = ground arith in
            rw (e) (
              logged-Rewinds saved old _ d w room positive (ap (λ t. u8 (t + 1)) same.align_tail)
                (put_agree _ _ _ _ same.align_queue) (omega arith) (omega arith)
                (λ y yl n. same.ras y))
      ]

  btb-Rewinds :
      (info : FetchTypeInfo) (s : TargetPred) (e : ℕ)
      → Rewinds saved s e
      → Rewinds saved (scan_btb info s) e
  unfolding scan_btb
  btb-Rewinds info s e v =
      unlogged-Rewinds saved s _ e v (omega arith) v.depth refl (λ x. refl) (λ y l. refl)

  same-Rewinds : Rewinds saved next d
  same-Rewinds =
      let depth = w.depth in
      let top = same.ras_top in
      unlogged-Rewinds saved old next d w (omega arith) (omega arith) same.align_tail
        same.align_queue (λ y l. same.ras y)

  pub scan-Rewinds :
      (info : FetchTypeInfo)
      → has_room d info old ≡ true
      → Rewinds saved (scan info old next) (if logs info old then suc d else d)
  unfolding has_room
  scan-Rewinds info room = elim (scan_cases info) [
    | inl (valid, call, scanned) ↦
        rw (scanned) (btb-Rewinds info _ _ (call-Rewinds info valid call room))
    | inr (inl (some_top, logged, scanned)) ↦
        let free : suc d ≤ 16 = ground arith in
        rw (scanned, logged) (btb-Rewinds info _ _ (ret-Rewinds some_top free))
    | inr (inr (inl (unlogged, scanned))) ↦
        rw (scanned, unlogged) (btb-Rewinds info _ _ same-Rewinds)
    | inr (inr (inr (unlogged, scanned))) ↦ rw (scanned, unlogged) same-Rewinds
  ]

learn-SameStack : (c : Cand) (bpu : Bpu) → SameStack (learn c bpu).tgt bpu.tgt
unfolding learn update update_jump train_target train_cache
learn-SameStack c bpu = record {
  ras = λ x. ground arith;
  ras_top = ground arith;
  align_queue = λ x. ground arith;
  align_tail = ground arith;
}

fetch-SameStack :
    (decision : FetchDecision) (old next : Bpu)
    → SameStack (take_fetch decision old next).tgt next.tgt
unfolding take_fetch
fetch-SameStack decision old next = record {
  ras = λ x. ground arith;
  ras_top = ground arith;
  align_queue = λ x. ground arith;
  align_tail = ground arith;
}

pub then-SameStack : {a b c : TargetPred} → SameStack a b → SameStack b c → SameStack a c
then-SameStack s t = record {
  ras = λ x. s.ras x ∙ t.ras x;
  ras_top = s.ras_top ∙ t.ras_top;
  align_queue = λ x. s.align_queue x ∙ t.align_queue x;
  align_tail = s.align_tail ∙ t.align_tail;
}

pub learn_keeps_ckpt : (c : Cand) (bpu : Bpu) (i : ℕ) → (learn c bpu).bp_ckpt i ≡ bpu.bp_ckpt i
unfolding learn update update_jump
learn_keeps_ckpt c bpu i = ground arith

-- The state of a cycle before its scan.
abbrev pub fetched : BpuInput → Bpu → Bpu
fetched input bpu = take_fetch input.decision bpu (
    learn (jump_cand input bpu) (
      learn (branch_cand input bpu)
        (record bpu { counts = count_jump input (count_branch input bpu.counts) })))

pub fetched-SameStack : (input : BpuInput) (bpu : Bpu) → SameStack (fetched input bpu).tgt bpu.tgt
fetched-SameStack input bpu = then-SameStack (fetch-SameStack input.decision bpu _) (
    then-SameStack (learn-SameStack (jump_cand input bpu) _)
      (learn-SameStack (branch_cand input bpu) _))
