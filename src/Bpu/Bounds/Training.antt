-- ===== src/Bpu/Bounds/Training.antt =====
-- The training of src/BPU/BPU.cpp keeps the widths of the direction part.
use rv32im_simulator.Prelude.{
  ℕ, zero, suc, ◌+◌, ◌-◌, ◌*◌, ◌^◌, ◌<◌, ◌≤◌, ◌≡◌, ◌>>>◌, refl, Bool, true, false, not, ◌&&◌, ◌||◌,
  ◌==◌, leb, ltb, if◌then◌else◌, inl, inr, Bool-cases, none, some, low_bits, u8, arith,
}
use rv32im_simulator.Prelude.Below.{all_below, all_below_sound}
use rv32im_simulator.Fetch.{TagescMeta}
use rv32im_simulator.Bpu.{DirectionPred, tage_ntables, banktick_max, put}
use rv32im_simulator.Bpu.Predict.{tage_tag, p2_of}
use rv32im_simulator.Bpu.Train.{
  saturate, trained_index, trained_tag, trained_row, train_base, train_provider, train_use_alt,
  next_lfsr, allocate_loop, decay_loop, train_allocate, train_bank_tick,
}
use rv32im_simulator.Bpu.Bounds.{
  RowFits, DirFits, put_all, on_if, saturate_le, with_base, with_use_alt, with_halved,
  with_registers, put_row-DirFits,
}

module _ (dir : DirectionPred) (d : DirFits dir) where
  train_base-DirFits : (pc : ℕ) (taken : Bool) → DirFits (train_base pc taken dir)
  unfolding train_base
  train_base-DirFits pc taken =
      with_base dir d _ _ (put_all (λ n. n ≤ 3) _ _ dir.t0 d.t0 (saturate_le 3 taken _ (d.t0 _)))
        (put_all (λ n. n < 2 ^ 12) _ _ dir.lht d.lht (omega arith))

  train_provider-DirFits :
      (pc : ℕ) (taken : Bool) (ghr : ℕ) (meta : TagescMeta) (hit : Bool)
      → DirFits (train_provider pc taken ghr meta hit dir)
  unfolding train_provider
  train_provider-DirFits pc taken ghr meta hit =
      let row = d.tn meta.prov_idx (trained_index pc ghr meta.prov_idx) in
      let up = saturate_le 3 true _ row.u in
      let down = saturate_le 3 false _ row.u in
      let fits =
        put_row-DirFits dir d meta.prov_idx (trained_index pc ghr meta.prov_idx) _ (record {
          ctr = saturate_le 7 taken _ row.ctr;
          u = on_if (λ n. n ≤ 3) _ _ _ up (on_if (λ n. n ≤ 3) _ _ _ down row.u);
          tag = row.tag;
        }) in
      on_if DirFits _ _ _ fits d

  train_use_alt-DirFits :
      (pc : ℕ) (taken : Bool) (meta : TagescMeta) → DirFits (train_use_alt pc taken meta dir)
  unfolding train_use_alt
  train_use_alt-DirFits pc taken meta =
      let slot = low_bits 7 (p2_of pc) in
      let moved : (up : Bool)
          → DirFits (record dir {
            use_alt_on_na = put slot (saturate 15 up (dir.use_alt_on_na slot)) dir.use_alt_on_na;
          }) =
        λ up. with_use_alt dir d _ (
          put_all (λ n. n ≤ 15) slot _ dir.use_alt_on_na d.use_alt_on_na
            (saturate_le 15 up _ (d.use_alt_on_na slot))) in
      on_if DirFits _ _ _ (on_if DirFits _ _ _ (moved true) (on_if DirFits _ _ _ (moved false) d)) d

  train_bank_tick-DirFits : DirFits (train_bank_tick dir)
  unfolding train_bank_tick
  train_bank_tick-DirFits =
      let count = u8 (dir.bank_tick_ctr + 1) in
      elim (Bool-cases (leb banktick_max count)) [
        | inl e ↦ rw (e) (
            with_halved dir d (λ table i. record (dir.tn table i) { u = (dir.tn table i).u >>> 1 })
              (λ table i.
                let row = d.tn table i in
                record { ctr = row.ctr; u = omega (arith, row.u); tag = row.tag }))
        | inr e ↦ rw (e) (with_registers dir d count dir.lfsr (ground arith) d.lfsr_high d.lfsr_low)
      ]

-- One step of the register, case by case.
lfsr_table : all_below 256 (λ l. ltb (next_lfsr l) 256 && leb 1 (next_lfsr l)) ≡ true
unfolding all_below next_lfsr
lfsr_table = refl

next_lfsr-range : (l : ℕ) → l < 2 ^ 8 → (next_lfsr l < 2 ^ 8) × (1 ≤ next_lfsr l)
next_lfsr-range l h = let checked = all_below_sound 256 _ l lfsr_table h in ground arith

module _ (pc : ℕ) (taken : Bool) (ghr : ℕ) where
  new_row-RowFits :
      (table : ℕ)
      → RowFits (record {
        valid = true;
        tag = trained_tag pc ghr table;
        ctr = if taken then 4 else 3;
        u = 0;
      })
  unfolding trained_tag tage_tag
  new_row-RowFits table = record {
    ctr = on_if (λ n. n ≤ 7) taken 4 3 (omega arith) (omega arith);
    u = omega arith;
    tag = omega arith;
  }

  allocate_loop-DirFits :
      (hit : ℕ → Bool) (start l rounds k : ℕ) (dir other : DirectionPred)
      → DirFits dir
      → DirFits other
      → DirFits (elim (allocate_loop pc taken ghr hit start l rounds k dir) [
        | some allocated ↦ allocated
        | none ↦ other
      ])
  unfolding allocate_loop
  allocate_loop-DirFits hit start l zero k dir other d o = o
  allocate_loop-DirFits hit start l (suc rounds) k dir other d o =
      let table = start + low_bits 2 (l >>> (k * 2)) in
      let free =
        ltb table tage_ntables && (not (hit table) || ((trained_row pc ghr dir table).u == 0)) in
      elim (Bool-cases free) [
        | inl e ↦
            rw (e)
              (put_row-DirFits dir d table (trained_index pc ghr table) _ (new_row-RowFits table))
        | inr e ↦ rw (e) (allocate_loop-DirFits hit start l rounds (suc k) dir other d o)
      ]

  decay_loop-DirFits :
      (rounds i : ℕ) (dir : DirectionPred) → DirFits dir → DirFits (decay_loop pc ghr rounds i dir)
  unfolding decay_loop
  decay_loop-DirFits zero i dir d = d
  decay_loop-DirFits (suc rounds) i dir d =
      let row = d.tn i (trained_index pc ghr i) in
      decay_loop-DirFits rounds (suc i) _ (
        put_row-DirFits dir d i (trained_index pc ghr i) _
          (record { ctr = row.ctr; u = saturate_le 3 false _ row.u; tag = row.tag }))

  train_allocate-DirFits :
      (meta : TagescMeta) (hit : ℕ → Bool) (dir : DirectionPred)
      → DirFits dir
      → DirFits (train_allocate pc taken ghr meta hit dir)
  unfolding train_allocate
  train_allocate-DirFits meta hit dir d =
      let start = if meta.prov_valid then meta.prov_idx + 1 else 0 in
      let l = next_lfsr dir.lfsr in
      let range = next_lfsr-range dir.lfsr d.lfsr_high in
      let stepped = record dir { lfsr = l } in
      let s : DirFits stepped =
        with_registers dir d dir.bank_tick_ctr l d.bank_tick_ctr range.0 range.1 in
      on_if DirFits _ _ _
        (allocate_loop-DirFits hit start l tage_ntables 0 stepped _ s
          (decay_loop-DirFits (tage_ntables - start) start stepped s))
        d

  pub train_dir-DirFits :
      (meta : TagescMeta) (hit : ℕ → Bool) (dir : DirectionPred)
      → DirFits dir
      → DirFits (
          train_bank_tick (
            train_allocate pc taken ghr meta hit (
              train_use_alt pc taken meta
                (train_provider pc taken ghr meta (hit meta.prov_idx) (train_base pc taken dir)))))
  train_dir-DirFits meta hit dir d =
      let base = train_base-DirFits dir d pc taken in
      let provided = train_provider-DirFits _ base pc taken ghr meta (hit meta.prov_idx) in
      let preferred = train_use_alt-DirFits _ provided pc taken meta in
      train_bank_tick-DirFits _ (train_allocate-DirFits meta hit _ preferred)
