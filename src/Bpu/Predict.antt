-- ===== src/Bpu/Predict.antt =====
-- `BPU::predict` and `FetchDecision::build` of src/BPU/BPU.cpp.
use rv32im_simulator.Prelude.{
  ℕ, zero, suc, ◌+◌, ◌-◌, ◌^◌, ◌>>>◌, bit_xor, Bool, true, false, not, ◌&&◌, ◌||◌, ◌==◌, leb, ltb,
  if◌then◌else◌, Option, none, some, low_bits, add32, u8,
}
use rv32im_simulator.Types.{SquashInfo}
use rv32im_simulator.Fetch.{TagescMeta, FetchDecision, no_fetch}
use rv32im_simulator.Bpu.{
  Bpu, DirectionPred, TargetPred, TageEntry, tage_ntables, tage_idx_bit, tage_tag_bit,
}

-- `struct PredictInfo`.
pub record PredictInfo : Type 0 where
  pub taken : Bool
  pub predict_pc : ℕ
  pub btb_hit : Bool
  pub unconditional : Bool
  pub cond_seen : Bool
  pub meta : TagescMeta

-- The address without its low two bits.
abbrev pub p2_of : ℕ → ℕ
p2_of pc = pc >>> 2

unfoldable pub t0_index : ℕ → DirectionPred → ℕ
t0_index pc dir = low_bits 10 (bit_xor (p2_of pc) (dir.lht (low_bits 7 (p2_of pc))))

unfoldable pub tage_index : ℕ → ℕ → ℕ
tage_index fold pc = low_bits tage_idx_bit (bit_xor fold (low_bits tage_idx_bit (p2_of pc)))

unfoldable pub tage_tag : ℕ → ℕ → ℕ → ℕ
tage_tag fold8 fold7 pc =
    low_bits tage_tag_bit (bit_xor (bit_xor fold8 fold7) (low_bits tage_tag_bit (p2_of pc)))

-- The row of a table that the live history and an address choose.
unfoldable live_index : ℕ → DirectionPred → ℕ → ℕ
unfolding tage_index
live_index pc dir table = tage_index (dir.fh_idx table) pc

abbrev live_row : ℕ → DirectionPred → ℕ → TageEntry
live_row pc dir table = dir.tn table (live_index pc dir table)

unfoldable live_hit : ℕ → DirectionPred → ℕ → Bool
unfolding tage_tag live_index
live_hit pc dir table =
    let row = live_row pc dir table in
    row.valid && (row.tag == tage_tag (dir.fh_tag8 table) (dir.fh_tag7 table) pc)

-- `prov` and `alt`, the last two tables that hit.
pub record Providers : Type 0 where
  pub prov : Option ℕ
  pub alt : Option ℕ

abbrev add_provider : ℕ → Providers → Providers
add_provider table p = elim p.prov [
  | none ↦ record p { prov = some table }
  | some _ ↦ elim p.alt [ none ↦ record p { alt = some table } | some _ ↦ p ]
]

-- The loop down to table 0 from the tables below `n`.
unfoldable find_providers : (ℕ → Bool) → ℕ → Providers → Providers
find_providers hit zero p = p
find_providers hit (suc table) p =
    find_providers hit table (if hit table then add_provider table p else p)

unfoldable providers : ℕ → DirectionPred → Providers
unfolding find_providers live_hit
providers pc dir =
    find_providers (live_hit pc dir) tage_ntables (record { prov = none; alt = none })

abbrev pub is_weak : ℕ → Bool
is_weak ctr = (ctr == 3) || (ctr == 4)

unfoldable predict_meta : ℕ → DirectionPred → TagescMeta
unfolding providers t0_index
predict_meta pc dir =
    let base_cnt = dir.t0 (t0_index pc dir) in
    let base_pred = leb 2 base_cnt in
    let found = providers pc dir in
    let alt_pred : Bool = elim found.alt [
      | none ↦ base_pred
      | some alt ↦ leb 4 (live_row pc dir alt).ctr
    ] in
    elim found.prov [
      | none ↦ record {
        prov_valid = false;
        prov_idx = 0;
        prov_ctr = 0;
        prov_u = 0;
        alt_pred = alt_pred;
        tage_pred = base_pred;
        base_cnt = base_cnt;
      }
      | some prov ↦
          let row = live_row pc dir prov in
          let use_alt = leb 8 (dir.use_alt_on_na (low_bits 7 (p2_of pc))) in
          record {
            prov_valid = true;
            prov_idx = u8 prov;
            prov_ctr = row.ctr;
            prov_u = row.u;
            alt_pred = alt_pred;
            tage_pred = if is_weak row.ctr && use_alt then alt_pred else leb 4 row.ctr;
            base_cnt = base_cnt;
          }
    ]

abbrev pub btb_index : ℕ → ℕ
btb_index pc = low_bits 6 (p2_of pc)

abbrev pub ras_slot : ℕ → ℕ
ras_slot position = low_bits 3 position

-- `(tgt.RAS_top - 1) & (RAS_CAP - 1)`, where the counter is a byte.
abbrev pub ras_last : TargetPred → ℕ
ras_last tgt = ras_slot (tgt.ras_top + 2 ^ 8 - 1)

-- The hash of an address and its local history that picks a target.
unfoldable pub tc_hash : ℕ → TargetPred → ℕ
tc_hash pc tgt = low_bits 5 (bit_xor (p2_of pc) (tgt.bht (low_bits 8 (p2_of pc))))

unfoldable pub tc_usable : ℕ → TargetPred → Bool
unfolding tc_hash
tc_usable pc tgt =
    let entry = tgt.btb (btb_index pc) in
    entry.valid
    && (entry.actual_pc == pc)
    && entry.is_indirect
    && not entry.is_call
    && not entry.is_ret
    && tgt.target_valid (tc_hash pc tgt)

-- `BPU::predict`.
unfoldable pub predict : ℕ → Bpu → PredictInfo
unfolding predict_meta tc_usable
predict pc bpu =
    let tgt = bpu.tgt in
    let meta = predict_meta pc bpu.dir in
    let entry = tgt.btb (btb_index pc) in
    let found = entry.valid && (entry.actual_pc == pc) in
    let ras_empty = tgt.ras_top == 0 in
    let stuck = entry.is_ret && ras_empty in
    let btb_hit = found && not stuck in
    let taken = not stuck && (if found && entry.unconditional then true else meta.tage_pred) in
    record {
      taken = taken;
      predict_pc =
          if taken && btb_hit
          then if entry.is_ret && ltb 0 tgt.ras_top
            then (tgt.ras (ras_last tgt)).ret_pc
            else if tc_usable pc tgt
            then tgt.target_cache (tc_hash pc tgt)
            else entry.target
          else add32 pc 4;
      btb_hit = btb_hit;
      unconditional = btb_hit && entry.unconditional;
      cond_seen = tgt.cond_seen (low_bits 9 (p2_of pc));
      meta = meta;
    }

-- `FetchDecision::build`.
unfoldable pub build : Bpu → ℕ → SquashInfo → Bool → Bool → Bool → FetchDecision
unfolding predict
build bpu pc squash halt_fetched fq_full imem_req_full =
    let prediction = predict pc bpu in
    if not squash.need_squash && not halt_fetched && not fq_full && not imem_req_full
    then record {
      valid = true;
      pc = pc;
      predicted_pc = if prediction.taken then prediction.predict_pc else add32 pc 4;
      shift = prediction.btb_hit || prediction.cond_seen;
      shift_value =
          if prediction.btb_hit
          then if prediction.unconditional then true else prediction.taken
          else if prediction.cond_seen
          then prediction.taken
          else false;
      ckpt_id = bpu.next_ckpt_id;
      meta = prediction.meta;
    }
    else no_fetch
