-- ===== src/Bpu/Train.antt =====
-- `BPU::update` and `BPU::updateJump` of src/BPU/BPU.cpp: what a resolved branch or jump teaches.
use rv32im_simulator.Prelude.{
  ℕ, zero, suc, ◌+◌, ◌-◌, ◌*◌, ◌%◌, ◌<<<◌, ◌>>>◌, bit_or, bit_xor, Bool, true, false, not, ◌&&◌,
  ◌||◌, ◌==◌, leb, ltb, if◌then◌else◌, Option, none, some, low_bits, u8,
}
use rv32im_simulator.Fetch.{TagescMeta}
use rv32im_simulator.Bpu.{
  Bpu, DirectionPred, TargetPred, TageEntry, BtbEntry, tage_ntables, lfsr_seed, lfsr_taps,
  banktick_max, put,
}
use rv32im_simulator.Bpu.Fold.{fold_idx, fold_tag8, fold_tag7, bit_of}
use rv32im_simulator.Bpu.Predict.{
  p2_of, t0_index, tage_index, tage_tag, is_weak, btb_index, tc_hash,
}

abbrev pub same_bool : Bool → Bool → Bool
same_bool true b = b
same_bool false b = not b

-- A counter that moves up or down and stops at its ends.
unfoldable pub saturate : ℕ → Bool → ℕ → ℕ
saturate top up count =
    if up
    then if ltb count top then count + 1 else count
    else if ltb 0 count
    then count - 1
    else count

-- The row and the tag of a table by the history at the prediction.
unfoldable pub trained_index : ℕ → ℕ → ℕ → ℕ
unfolding tage_index fold_idx
trained_index pc ghr table = tage_index (fold_idx table ghr) pc

unfoldable pub trained_tag : ℕ → ℕ → ℕ → ℕ
unfolding tage_tag fold_tag8 fold_tag7
trained_tag pc ghr table = tage_tag (fold_tag8 table ghr) (fold_tag7 table ghr) pc

abbrev pub trained_row : ℕ → ℕ → DirectionPred → ℕ → TageEntry
trained_row pc ghr dir table = dir.tn table (trained_index pc ghr table)

unfoldable pub trained_hit : ℕ → ℕ → DirectionPred → ℕ → Bool
unfolding trained_index trained_tag
trained_hit pc ghr dir table =
    let row = trained_row pc ghr dir table in row.valid && (row.tag == trained_tag pc ghr table)

-- A row of a table is changed.
abbrev pub put_row : ℕ → ℕ → TageEntry → DirectionPred → DirectionPred
put_row table index row dir = record dir {
  tn = λ t. if t == table then put index row (dir.tn table) else dir.tn t;
}

-- The base counter and the local history of the address.
unfoldable pub train_base : ℕ → Bool → DirectionPred → DirectionPred
unfolding saturate t0_index
train_base pc taken dir =
    let index = t0_index pc dir in
    let local = low_bits 7 (p2_of pc) in
    record dir {
      t0 = put index (saturate 3 taken (dir.t0 index)) dir.t0;
      lht = put local (low_bits 12 (bit_or (dir.lht local <<< 1) (bit_of taken))) dir.lht;
    }

-- The provider's row, if the table still hits.
unfoldable pub train_provider : ℕ → Bool → ℕ → TagescMeta → Bool → DirectionPred → DirectionPred
unfolding saturate trained_index
train_provider pc taken ghr meta hit dir =
    let prov = meta.prov_idx in
    let row = trained_row pc ghr dir prov in
    let correct = same_bool meta.tage_pred taken in
    let useful =
      if correct && not (same_bool meta.alt_pred taken)
      then saturate 3 true row.u
      else if not correct
      then saturate 3 false row.u
      else row.u in
    if meta.prov_valid && hit
    then put_row prov (trained_index pc ghr prov)
        (record row { ctr = saturate 7 taken row.ctr; u = useful }) dir
    else dir

-- The preference for the alternative over a weak provider.
unfoldable pub train_use_alt : ℕ → Bool → TagescMeta → DirectionPred → DirectionPred
unfolding saturate
train_use_alt pc taken meta dir =
    let slot = low_bits 7 (p2_of pc) in
    let alt_right = same_bool meta.alt_pred taken in
    let tage_right = same_bool meta.tage_pred taken in
    if meta.prov_valid && is_weak meta.prov_ctr
    then if alt_right && not tage_right
      then record dir {
        use_alt_on_na = put slot (saturate 15 true (dir.use_alt_on_na slot)) dir.use_alt_on_na;
      }
      else if not alt_right && tage_right
      then record dir {
        use_alt_on_na = put slot (saturate 15 false (dir.use_alt_on_na slot)) dir.use_alt_on_na;
      }
      else dir
    else dir

unfoldable pub next_lfsr : ℕ → ℕ
next_lfsr l =
    let shifted = if l % 2 == 0 then l >>> 1 else bit_xor (l >>> 1) lfsr_taps in
    if shifted == 0 then lfsr_seed else shifted

-- The loop that looks for a row to allocate; the rest of the rounds is left out once one is.
unfoldable pub allocate_loop :
    ℕ → Bool → ℕ → (ℕ → Bool) → ℕ → ℕ → ℕ → ℕ → DirectionPred → Option DirectionPred
unfolding trained_index trained_tag
allocate_loop pc taken ghr hit start l zero k dir = none
allocate_loop pc taken ghr hit start l (suc rounds) k dir =
    let later = allocate_loop pc taken ghr hit start l rounds (suc k) dir in
    let table = start + low_bits 2 (l >>> (k * 2)) in
    if ltb table tage_ntables && (not (hit table) || ((trained_row pc ghr dir table).u == 0))
    then some (
        put_row table (trained_index pc ghr table)
          (record {
            valid = true;
            tag = trained_tag pc ghr table;
            ctr = if taken then 4 else 3;
            u = 0;
          })
          dir)
    else later

-- The loop that lowers the usefulness of the rows from table `i` on.
unfoldable pub decay_loop : ℕ → ℕ → ℕ → ℕ → DirectionPred → DirectionPred
unfolding saturate trained_index
decay_loop pc ghr zero i dir = dir
decay_loop pc ghr (suc rounds) i dir =
    let row = trained_row pc ghr dir i in
    decay_loop pc ghr rounds (suc i)
      (put_row i (trained_index pc ghr i) (record row { u = saturate 3 false row.u }) dir)

-- The allocation after a wrong prediction.
unfoldable pub train_allocate :
    ℕ → Bool → ℕ → TagescMeta → (ℕ → Bool) → DirectionPred → DirectionPred
unfolding next_lfsr allocate_loop decay_loop
train_allocate pc taken ghr meta hit dir =
    let confident = meta.prov_valid && (leb meta.prov_ctr 1 || leb 6 meta.prov_ctr) in
    let start = if meta.prov_valid then meta.prov_idx + 1 else 0 in
    let l = next_lfsr dir.lfsr in
    let stepped = record dir { lfsr = l } in
    if not (same_bool meta.tage_pred taken) && not (same_bool meta.alt_pred taken && confident)
    then elim (allocate_loop pc taken ghr hit start l tage_ntables 0 stepped) [
      | some allocated ↦ allocated
      | none ↦ decay_loop pc ghr (tage_ntables - start) start stepped
    ]
    else dir

-- Every `banktick_max` updates the usefulness of all rows is halved.
unfoldable pub train_bank_tick : DirectionPred → DirectionPred
train_bank_tick dir =
    let count = u8 (dir.bank_tick_ctr + 1) in
    if leb banktick_max count
    then record dir {
      bank_tick_ctr = 0;
      tn = λ table i. record (dir.tn table i) { u = (dir.tn table i).u >>> 1 };
    }
    else record dir { bank_tick_ctr = count }

abbrev push_bht : ℕ → Bool → TargetPred → TargetPred
push_bht pc taken tgt =
    let slot = low_bits 8 (p2_of pc) in
    record tgt { bht = put slot (low_bits 8 (bit_or (tgt.bht slot <<< 1) (bit_of taken))) tgt.bht }

-- The part of `update` on targets.
unfoldable pub train_target : ℕ → Bool → ℕ → TargetPred → TargetPred
train_target pc taken target tgt =
    let seen = record tgt { cond_seen = put (low_bits 9 (p2_of pc)) true tgt.cond_seen } in
    let entry : BtbEntry = record {
      actual_pc = pc;
      target = target;
      valid = true;
      unconditional = false;
      is_call = false;
      is_ret = false;
      is_indirect = false;
    } in
    push_bht pc taken
      (if taken then record seen { btb = put (btb_index pc) entry seen.btb } else seen)

-- `BPU::update`; the hits are those before the training.
unfoldable pub update : ℕ → Bool → ℕ → ℕ → TagescMeta → Bpu → Bpu
unfolding trained_hit train_base train_provider train_use_alt train_allocate train_bank_tick
    train_target
update pc taken target ghr meta bpu =
    let hit = trained_hit pc ghr bpu.dir in
    record bpu {
      dir = train_bank_tick (
          train_allocate pc taken ghr meta hit (
            train_use_alt pc taken meta (
              train_provider pc taken ghr meta (hit meta.prov_idx) (train_base pc taken bpu.dir))));
      tgt = train_target pc taken target bpu.tgt;
    }

-- The target cache learns the target of an indirect jump that is neither a call nor a return.
unfoldable pub train_cache : ℕ → ℕ → Bool → TargetPred → TargetPred
unfolding tc_hash
train_cache pc target trained tgt =
    if trained
    then record tgt {
      target_cache = put (tc_hash pc tgt) target tgt.target_cache;
      target_valid = put (tc_hash pc tgt) true tgt.target_valid;
    }
    else tgt

-- `BPU::updateJump`.
unfoldable pub update_jump : ℕ → ℕ → Bool → Bool → Bool → Bpu → Bpu
unfolding train_cache
update_jump pc target is_call is_ret is_indirect bpu =
    let entry : BtbEntry = record {
      actual_pc = pc;
      target = target;
      valid = true;
      unconditional = true;
      is_call = is_call;
      is_ret = is_ret;
      is_indirect = is_indirect;
    } in
    let entered = record bpu.tgt { btb = put (btb_index pc) entry bpu.tgt.btb } in
    record bpu {
      tgt =
          push_bht pc true
            (train_cache pc target (is_indirect && not is_call && not is_ret) entered);
    }
