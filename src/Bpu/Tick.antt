-- ===== src/Bpu/Tick.antt =====
-- `BPU::tick` of src/BPU/BPU.cpp.
use rv32im_simulator.Prelude.{
  ℕ, ◌+◌, ◌-◌, ◌^◌, Bool, true, false, not, ◌&&◌, ◌==◌, if◌then◌else◌, low_bits, add32, u8, u64,
  List, [], ◌∷◌,
}
use rv32im_simulator.Types.{SquashInfo}
use rv32im_simulator.Tags.{rob_slot, survives}
use rv32im_simulator.Packet.{ResultBus, RobEntry}
use rv32im_simulator.Bru
use rv32im_simulator.Bru.{Bru}
use rv32im_simulator.Rob
use rv32im_simulator.Rob.{Rob}
use rv32im_simulator.Fetch.{TagescMeta, FetchDecision, no_meta}
use rv32im_simulator.Bpu.{Bpu, BpuSnapshot, BranchCounts, put}
use rv32im_simulator.Bpu.Fold.{shift_ghr, recover_folds}
use rv32im_simulator.Bpu.Predict.{btb_index}
use rv32im_simulator.Bpu.Train.{update, update_jump}
use rv32im_simulator.Bpu.Stack.{FetchTypeInfo, scan, undo_loop}

-- `struct BPUInput`.
pub record BpuInput : Type 0 where
  pub bru : Bru
  pub rob : Rob
  pub cdb_out : ResultBus
  pub squash : SquashInfo
  pub decision : FetchDecision
  pub fetch_info : FetchTypeInfo

-- `struct Cand`, a branch or jump to learn from.
pub record Cand : Type 0 where
  pub valid : Bool
  pub pc : ℕ
  pub taken : Bool
  pub target : ℕ
  pub ghr : ℕ
  pub cond : Bool
  pub is_call : Bool
  pub is_ret : Bool
  pub is_indirect : Bool
  pub meta : TagescMeta

abbrev no_cand : Cand
no_cand = record {
  valid = false;
  pc = 0;
  taken = false;
  target = 0;
  ghr = 0;
  cond = true;
  is_call = false;
  is_ret = false;
  is_indirect = false;
  meta = no_meta;
}

abbrev pub entry_of : BpuInput → ℕ → RobEntry
entry_of input tag = Rob.entry_at input.rob (rob_slot tag)

unfoldable pub note_miss : ℕ → BranchCounts → BranchCounts
note_miss pc counts = record counts {
  miss_cnt = put (btb_index pc) (u64 (counts.miss_cnt (btb_index pc) + 1)) counts.miss_cnt;
  miss_pc = put (btb_index pc) pc counts.miss_pc;
}

abbrev count_if : Bool → ℕ → ℕ
count_if test n = if test then u64 (n + 1) else n

unfoldable resolves_branch : BpuInput → Bool
resolves_branch input =
    not (Bru.is_empty input.bru) && Rob.matches_tag (Bru.head_rob_tag input.bru) input.rob

-- The statistics on a resolved branch.
unfoldable pub count_branch : BpuInput → BranchCounts → BranchCounts
unfolding resolves_branch note_miss
count_branch input counts =
    let entry = entry_of input (Bru.head_rob_tag input.bru) in
    let correct = Bru.head_pc_result input.bru == entry.predicted_pc in
    let counted = record counts {
      branch_total = u64 (counts.branch_total + 1);
      cond_total = u64 (counts.cond_total + 1);
      branch_correct = count_if correct counts.branch_correct;
      cond_correct = count_if correct counts.cond_correct;
    } in
    if not (resolves_branch input)
    then counts
    else if correct
    then counted
    else note_miss (Bru.head_pc_from input.bru) counted

-- The branch to learn from; history and prediction are those of its checkpoint.
unfoldable pub branch_cand : BpuInput → Bpu → Cand
unfolding resolves_branch
branch_cand input old =
    let tag = Bru.head_rob_tag input.bru in
    let pc_from = Bru.head_pc_from input.bru in
    let pc_result = Bru.head_pc_result input.bru in
    let ckpt = (entry_of input tag).ckpt_id in
    if resolves_branch input && survives input.squash tag
    then record no_cand {
      valid = true;
      pc = pc_from;
      taken = not (pc_result == add32 pc_from 4);
      target = pc_result;
      ghr = (old.bp_ckpt ckpt).ghr_snapshot;
      meta = old.dir.tmeta ckpt;
    }
    else no_cand

unfoldable resolves_jump : BpuInput → Bool
resolves_jump input =
    input.cdb_out.valid
    && input.cdb_out.is_control
    && Rob.matches_tag input.cdb_out.rob_tag input.rob
    && survives input.squash input.cdb_out.rob_tag

unfoldable pub count_jump : BpuInput → BranchCounts → BranchCounts
unfolding resolves_jump note_miss
count_jump input counts =
    let entry = entry_of input input.cdb_out.rob_tag in
    let correct = input.cdb_out.value == entry.predicted_pc in
    let jalr = entry.is_indirect in
    let counted = record counts {
      branch_total = u64 (counts.branch_total + 1);
      jalr_total = count_if jalr counts.jalr_total;
      jal_total = count_if (not jalr) counts.jal_total;
      branch_correct = count_if correct counts.branch_correct;
      jalr_correct = count_if (correct && jalr) counts.jalr_correct;
      jal_correct = count_if (correct && not jalr) counts.jal_correct;
    } in
    if not (resolves_jump input)
    then counts
    else if correct
    then counted
    else note_miss entry.pc counted

-- The jump to learn from. The source leaves `isIndirect` as it is in an empty candidate.
unfoldable pub jump_cand : BpuInput → Bpu → Cand
unfolding resolves_jump
jump_cand input old =
    let entry = entry_of input input.cdb_out.rob_tag in
    if resolves_jump input
    then record no_cand {
      valid = true;
      pc = entry.pc;
      taken = true;
      target = input.cdb_out.value;
      ghr = (old.bp_ckpt entry.ckpt_id).ghr_snapshot;
      cond = false;
      is_call = entry.is_call;
      is_ret = entry.is_ret;
    }
    else no_cand

-- The λ `apply`, with the test of `valid` before it.
unfoldable pub learn : Cand → Bpu → Bpu
unfolding update update_jump
learn c bpu =
    if not c.valid
    then bpu
    else if c.cond
    then update c.pc c.taken c.target c.ghr c.meta bpu
    else update_jump c.pc c.target c.is_call c.is_ret c.is_indirect bpu

unfoldable pub snapshot_check_point : Bpu → BpuSnapshot
snapshot_check_point bpu = record {
  ghr_snapshot = bpu.dir.ghr;
  align_head = bpu.tgt.align_head;
  align_tail = bpu.tgt.align_tail;
  ras_top = bpu.tgt.ras_top;
}

-- A fetch saves the state before the tick and shifts the history.
unfoldable pub take_fetch : FetchDecision → Bpu → Bpu → Bpu
unfolding snapshot_check_point shift_ghr
take_fetch decision old next =
    let saved = record next.dir { tmeta = put decision.ckpt_id decision.meta next.dir.tmeta } in
    if decision.valid
    then record next {
      bp_ckpt = put decision.ckpt_id (snapshot_check_point old) next.bp_ckpt;
      dir = if decision.shift then shift_ghr decision.shift_value saved else saved;
      next_ckpt_id = low_bits 5 (decision.ckpt_id + 1);
    }
    else next

unfoldable pub recover_check_point : BpuSnapshot → Bpu → Bpu
recover_check_point ckpt bpu = record bpu {
  dir = record bpu.dir { ghr = ckpt.ghr_snapshot };
  tgt = record bpu.tgt {
    align_head = ckpt.align_head;
    align_tail = ckpt.align_tail;
    ras_top = ckpt.ras_top;
  };
}

unfoldable pub recover : SquashInfo → Bpu → Bpu → Bpu
unfolding undo_loop recover_check_point recover_folds
recover squash old next =
    let ckpt = old.bp_ckpt squash.ckpt_id in
    let dist = u8 (old.tgt.align_tail + 2 ^ 8 - ckpt.align_tail) in
    let undone = record next {
      tgt = record next.tgt { ras = undo_loop old.tgt dist 16 0 next.tgt.ras };
    } in
    let back = recover_check_point ckpt undone in
    if squash.need_squash
    then record back {
      dir = recover_folds back.dir;
      next_ckpt_id = low_bits 5 (squash.ckpt_id + 1);
    }
    else next

-- `BPU::tick`.
unfoldable pub tick : BpuInput → Bpu → Bpu
unfolding count_branch branch_cand count_jump jump_cand learn take_fetch scan recover
tick input old =
    let counted = record old { counts = count_jump input (count_branch input old.counts) } in
    let learned = learn (jump_cand input old) (learn (branch_cand input old) counted) in
    let fetched = take_fetch input.decision old learned in
    let scanned = record fetched { tgt = scan input.fetch_info old.tgt fetched.tgt } in
    recover input.squash old scanned

-- Several cycles, the oldest first.
unfoldable pub run : List BpuInput → Bpu → Bpu
run [] bpu = bpu
run (input ∷ rest) bpu = run rest (tick input bpu)
