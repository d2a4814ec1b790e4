-- ===== src/Bpu/Stack.antt =====
-- The return stack of src/BPU/BPU.cpp with its journal, and the training on decoded instructions.
use rv32im_simulator.Prelude.{
  ℕ, zero, suc, ◌+◌, ◌-◌, ◌^◌, Bool, true, false, not, ◌&&◌, ◌||◌, ◌==◌, ltb, leb, if◌then◌else◌,
  low_bits, add32, u8, u32,
}
use rv32im_simulator.Bpu.{TargetPred, RasEntry, put}
use rv32im_simulator.Bpu.Predict.{btb_index, ras_slot, ras_last}

-- `struct FetchTypeInfo`.
pub record FetchTypeInfo : Type 0 where
  pub valid : Bool
  pub is_call : Bool
  pub is_ret : Bool
  pub jal_target_valid : Bool
  pub pc : ℕ
  pub jal_target : ℕ

-- The journal takes the last entry of the return stack as it was before the tick.
unfoldable pub journal : TargetPred → TargetPred → TargetPred
journal old next =
    let last = old.ras (ras_last old) in
    record next {
      align_queue =
          put (low_bits 4 old.align_tail)
            (record { addr = last.ret_pc; index = ras_last old; times = last.times })
            next.align_queue;
      align_tail = u8 (next.align_tail + 1);
    }

-- A call: the same return address again is counted, another one is pushed.
unfoldable pub scan_call : ℕ → TargetPred → TargetPred → TargetPred
unfolding journal
scan_call ra old next =
    let last = old.ras (ras_last old) in
    let noted = journal old next in
    if ltb 0 old.ras_top && (last.ret_pc == ra)
    then record noted {
      ras =
          put (ras_last old)
            (record (noted.ras (ras_last old)) {
              times = u32 ((noted.ras (ras_last old)).times + 1);
            })
            noted.ras;
    }
    else record next {
      ras = put (ras_slot old.ras_top) (record { ret_pc = ra; times = 1 }) next.ras;
      ras_top = u8 (next.ras_top + 1);
    }

-- A return: the last entry is counted down or popped.
unfoldable pub scan_ret : TargetPred → TargetPred → TargetPred
unfolding journal
scan_ret old next =
    let last = old.ras (ras_last old) in
    let noted = journal old next in
    if ltb 1 last.times
    then record noted {
      ras =
          put (ras_last old)
            (record (noted.ras (ras_last old)) {
              times = u32 ((noted.ras (ras_last old)).times + 2 ^ 32 - 1);
            })
            noted.ras;
    }
    else record noted { ras_top = u8 (noted.ras_top + 2 ^ 8 - 1) }

-- The early training of the branch target buffer.
unfoldable pub scan_btb : FetchTypeInfo → TargetPred → TargetPred
scan_btb info next =
    let entry = next.btb (btb_index info.pc) in
    let jump = record entry {
      actual_pc = info.pc;
      valid = true;
      unconditional = true;
      is_call = info.is_call;
      is_ret = false;
    } in
    let targeted =
      if info.jal_target_valid
      then record jump { target = info.jal_target }
      else record jump { is_indirect = true } in
    let jumped =
      if info.is_call || (not info.is_call && not info.is_ret) then targeted else entry in
    let returned = record jumped {
      actual_pc = info.pc;
      valid = true;
      unconditional = true;
      is_call = false;
      is_ret = true;
    } in
    record next {
      btb = put (btb_index info.pc) (if info.is_ret then returned else jumped) next.btb;
    }

-- The scan of an instruction that the fetch queue took in the cycle before.
unfoldable pub scan : FetchTypeInfo → TargetPred → TargetPred → TargetPred
unfolding scan_call scan_ret scan_btb
scan info old next =
    let stacked =
      if info.is_call
      then scan_call (add32 info.pc 4) old next
      else if info.is_ret && ltb 0 old.ras_top
      then scan_ret old next
      else next in
    if info.valid then scan_btb info stacked else next

-- The loop that writes the journal back, the newest entry first.
unfoldable pub undo_loop : TargetPred → ℕ → ℕ → ℕ → (ℕ → RasEntry) → ℕ → RasEntry
undo_loop old dist zero k ras = ras
undo_loop old dist (suc rounds) k ras =
    let entry = old.align_queue (low_bits 4 (u8 (old.align_tail + 2 ^ 8 - 1 + 2 ^ 8 - k))) in
    undo_loop old dist rounds (suc k) (
      if leb dist k
      then ras
      else put (ras_slot entry.index) (record { ret_pc = entry.addr; times = entry.times }) ras)
