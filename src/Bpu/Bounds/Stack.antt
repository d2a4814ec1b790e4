-- ===== src/Bpu/Bounds/Stack.antt =====
-- The widths of the return stack and its journal in src/BPU/BPU.cpp, of the positions and of a checkpoint.
use rv32im_simulator.Prelude.{ℕ, zero, suc, ◌+◌, ◌-◌, ◌^◌, ◌<◌, leb, low_bits, u8, add32, arith}
use rv32im_simulator.Bpu.{TargetPred, RasEntry, AlignEntry, BpuSnapshot, put}
use rv32im_simulator.Bpu.Predict.{ras_slot, ras_last}
use rv32im_simulator.Bpu.Stack.{
  FetchTypeInfo, journal, scan_call, scan_ret, scan_btb, scan, undo_loop,
}
use rv32im_simulator.Bpu.Bounds.{put_all, on_if}

pub record RasFits (entry : RasEntry) : Type 0 where
  pub ret_pc : entry.ret_pc < 2 ^ 32
  pub times : entry.times < 2 ^ 32

pub record AlignFits (entry : AlignEntry) : Type 0 where
  pub addr : entry.addr < 2 ^ 32
  pub index : entry.index < 8
  pub times : entry.times < 2 ^ 32

pub record SnapshotFits (saved : BpuSnapshot) : Type 0 where
  pub ghr_snapshot : saved.ghr_snapshot < 2 ^ 64
  pub align_head : saved.align_head < 2 ^ 8
  pub align_tail : saved.align_tail < 2 ^ 8
  pub ras_top : saved.ras_top < 2 ^ 8

-- The local histories, the stack and the journal, field by field.
pub record Widths (bht : ℕ → ℕ) (ras : ℕ → RasEntry) (align_queue : ℕ → AlignEntry)
    (ras_top align_head align_tail : ℕ) : Type 0 where
  pub bht_fits : (i : ℕ) → bht i < 2 ^ 8
  pub ras_fits : (i : ℕ) → RasFits (ras i)
  pub journal_fits : (i : ℕ) → AlignFits (align_queue i)
  pub top : ras_top < 2 ^ 8
  pub head : align_head < 2 ^ 8
  pub tail : align_tail < 2 ^ 8

abbrev pub TargetFits : TargetPred → Type 0
TargetFits tgt = Widths tgt.bht tgt.ras tgt.align_queue tgt.ras_top tgt.align_head tgt.align_tail

-- One local history is shifted.
module _ {bht : ℕ → ℕ} {ras : ℕ → RasEntry} {align_queue : ℕ → AlignEntry} {top head tail : ℕ}
    (slot v : ℕ) (t : Widths bht ras align_queue top head tail) where
  pub push-Widths : Widths (put slot (low_bits 8 v) bht) ras align_queue top head tail
  push-Widths = record {
    bht_fits = put_all (λ n. n < 2 ^ 8) slot _ bht t.bht_fits (omega arith);
    ras_fits = t.ras_fits;
    journal_fits = t.journal_fits;
    top = t.top;
    head = t.head;
    tail = t.tail;
  }

-- A write to the stack, and its position.
ras-TargetFits :
    (slot top : ℕ) (entry : RasEntry) (tgt : TargetPred)
    → TargetFits tgt
    → RasFits entry
    → top < 2 ^ 8
    → TargetFits (record tgt { ras = put slot entry tgt.ras; ras_top = top })
ras-TargetFits slot top entry tgt t e below = record {
  bht_fits = t.bht_fits;
  ras_fits = put_all RasFits slot entry tgt.ras t.ras_fits e;
  journal_fits = t.journal_fits;
  top = below;
  head = t.head;
  tail = t.tail;
}

module _ (old : TargetPred) (o : TargetFits old) where
  journal-TargetFits : (next : TargetPred) → TargetFits next → TargetFits (journal old next)
  unfolding journal
  journal-TargetFits next t =
      let last = o.ras_fits (ras_last old) in
      record {
        bht_fits = t.bht_fits;
        ras_fits = t.ras_fits;
        journal_fits =
            put_all AlignFits _ _ next.align_queue t.journal_fits
              (record { addr = last.ret_pc; index = omega arith; times = last.times });
        top = t.top;
        head = t.head;
        tail = omega arith;
      }

  scan_call-TargetFits :
      (ra : ℕ) (next : TargetPred)
      → ra < 2 ^ 32
      → TargetFits next
      → TargetFits (scan_call ra old next)
  unfolding scan_call
  scan_call-TargetFits ra next below t =
      let noted = journal old next in
      let n = journal-TargetFits next t in
      on_if TargetFits _ _ _
        (ras-TargetFits (ras_last old) noted.ras_top _ noted n
          (record { ret_pc = (n.ras_fits (ras_last old)).ret_pc; times = omega arith }) n.top)
        (ras-TargetFits (ras_slot old.ras_top) (u8 (next.ras_top + 1)) _ next t
          (record { ret_pc = below; times = omega arith }) (omega arith))

  scan_ret-TargetFits : (next : TargetPred) → TargetFits next → TargetFits (scan_ret old next)
  unfolding scan_ret
  scan_ret-TargetFits next t =
      let noted = journal old next in
      let n = journal-TargetFits next t in
      on_if TargetFits _ _ _
        (ras-TargetFits (ras_last old) noted.ras_top _ noted n
          (record { ret_pc = (n.ras_fits (ras_last old)).ret_pc; times = omega arith }) n.top)
        (record {
          bht_fits = n.bht_fits;
          ras_fits = n.ras_fits;
          journal_fits = n.journal_fits;
          top = omega arith;
          head = n.head;
          tail = n.tail;
        })

  pub scan-TargetFits :
      (info : FetchTypeInfo) (next : TargetPred) → TargetFits next → TargetFits (scan info old next)
  unfolding scan scan_btb
  scan-TargetFits info next t =
      on_if TargetFits _ _ _
        (on_if TargetFits info.is_call _ _
          (scan_call-TargetFits (add32 info.pc 4) next (omega arith) t)
          (on_if TargetFits _ _ _ (scan_ret-TargetFits next t) t))
        t

  pub undo_loop-RasFits :
      (dist rounds k : ℕ) (ras : ℕ → RasEntry)
      → ((i : ℕ) → RasFits (ras i))
      → (i : ℕ) → RasFits (undo_loop old dist rounds k ras i)
  unfolding undo_loop
  undo_loop-RasFits dist zero k ras fits = fits
  undo_loop-RasFits dist (suc rounds) k ras fits =
      let entry = old.align_queue (low_bits 4 (u8 (old.align_tail + 2 ^ 8 - 1 + 2 ^ 8 - k))) in
      let e = o.journal_fits (low_bits 4 (u8 (old.align_tail + 2 ^ 8 - 1 + 2 ^ 8 - k))) in
      undo_loop-RasFits dist rounds (suc k) _ (
        on_if (λ (r : ℕ → RasEntry). (i : ℕ) → RasFits (r i)) (leb dist k) _ _ fits
          (put_all RasFits (ras_slot entry.index) _ ras fits
            (record { ret_pc = e.addr; times = e.times })))
