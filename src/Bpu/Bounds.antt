-- ===== src/Bpu/Bounds.antt =====
-- The widths of the counters and histories of the predictor in src/include/BPU.hpp.
pub mod Cycle
pub mod History
pub mod Stack
pub mod Statistics
pub mod Training
use rv32im_simulator.Prelude.{
  ℕ, zero, suc, ◌+◌, ◌-◌, ◌*◌, ◌^◌, ◌%◌, ◌<◌, ◌≤◌, ◌≡◌, ◌>>>◌, ◌<<<◌, refl, sym, ap, ◌∙◌, Bool,
  true, false, not, ◌&&◌, ◌||◌, ◌==◌, leb, ltb, if◌then◌else◌, inl, inr, Bool-cases, Option, none,
  some, List, [], ◌∷◌, low_bits, u8, u64, arith,
}
use rv32im_simulator.Prelude.Below.{all_below, all_below_sound}
use rv32im_simulator.Fetch.{TagescMeta, FetchDecision}
use rv32im_simulator.Bpu.{
  Bpu, DirectionPred, TargetPred, TageEntry, tage_ntables, tage_idx_bit, tage_tag_bit, banktick_max,
  lfsr_seed, lfsr_taps, put,
}
use rv32im_simulator.Bpu.Fold.{bit_of}
use rv32im_simulator.Bpu.Predict.{tage_tag, t0_index, p2_of, is_weak}
use rv32im_simulator.Bpu.Train.{
  same_bool, saturate, trained_index, trained_tag, trained_row, trained_hit, put_row, train_base,
  train_provider, train_use_alt, next_lfsr, allocate_loop, decay_loop, train_allocate,
  train_bank_tick,
}

-- The widths of a row: `ctr:3`, `u:2`, `tag:TAGE_TAG_BIT`.
pub record RowFits (row : TageEntry) : Type 0 where
  pub ctr : row.ctr ≤ 7
  pub u : row.u ≤ 3
  pub tag : row.tag < 2 ^ 8

-- The widths of the direction part, of the history and of its folded views; the register of the pseudorandom bits is never zero.
pub record DirFits (dir : DirectionPred) : Type 0 where
  pub t0 : (i : ℕ) → dir.t0 i ≤ 3
  pub lht : (i : ℕ) → dir.lht i < 2 ^ 12
  pub tn : (table i : ℕ) → RowFits (dir.tn table i)
  pub use_alt_on_na : (i : ℕ) → dir.use_alt_on_na i ≤ 15
  pub bank_tick_ctr : dir.bank_tick_ctr < banktick_max
  pub lfsr_high : dir.lfsr < 2 ^ 8
  pub lfsr_low : 1 ≤ dir.lfsr
  pub ghr : dir.ghr < 2 ^ 64
  pub fh_idx : (i : ℕ) → dir.fh_idx i < 2 ^ tage_idx_bit
  pub fh_tag8 : (i : ℕ) → dir.fh_tag8 i < 2 ^ tage_tag_bit
  pub fh_tag7 : (i : ℕ) → dir.fh_tag7 i < 2 ^ (tage_tag_bit - 1)

pub put_all {ℓ ℓ'} :
    {A : Type ℓ} (P : A → Type ℓ') (index : ℕ) (value : A) (array : ℕ → A)
    → ((i : ℕ) → P (array i))
    → P value
    → (i : ℕ) → P (put index value array i)
put_all P index value array all here i = elim (Bool-cases (i == index)) [
  | inl e ↦ rw (e) here
  | inr e ↦ rw (e) (all i)
]

pub on_if {ℓ ℓ'} :
    {A : Type ℓ} (P : A → Type ℓ') (test : Bool) (x y : A) → P x → P y → P (if test then x else y)
on_if P true x y h k = h
on_if P false x y h k = k

pub saturate_le : (top : ℕ) (up : Bool) (count : ℕ) → count ≤ top → saturate top up count ≤ top
unfolding saturate
saturate_le top up count l = ground arith

-- The fields change one at a time.
module _ (dir : DirectionPred) (d : DirFits dir) where
  with_tn :
      (tn : ℕ → ℕ → TageEntry)
      → ((table i : ℕ) → RowFits (tn table i))
      → DirFits (record dir { tn = tn })
  with_tn tn h = record {
    t0 = d.t0;
    lht = d.lht;
    tn = h;
    use_alt_on_na = d.use_alt_on_na;
    bank_tick_ctr = d.bank_tick_ctr;
    lfsr_high = d.lfsr_high;
    lfsr_low = d.lfsr_low;
    ghr = d.ghr;
    fh_idx = d.fh_idx;
    fh_tag8 = d.fh_tag8;
    fh_tag7 = d.fh_tag7;
  }

  pub with_base :
      (t0 lht : ℕ → ℕ)
      → ((i : ℕ) → t0 i ≤ 3)
      → ((i : ℕ) → lht i < 2 ^ 12)
      → DirFits (record dir { t0 = t0; lht = lht })
  with_base t0 lht h k = record {
    t0 = h;
    lht = k;
    tn = d.tn;
    use_alt_on_na = d.use_alt_on_na;
    bank_tick_ctr = d.bank_tick_ctr;
    lfsr_high = d.lfsr_high;
    lfsr_low = d.lfsr_low;
    ghr = d.ghr;
    fh_idx = d.fh_idx;
    fh_tag8 = d.fh_tag8;
    fh_tag7 = d.fh_tag7;
  }

  pub with_use_alt :
      (pref : ℕ → ℕ) → ((i : ℕ) → pref i ≤ 15) → DirFits (record dir { use_alt_on_na = pref })
  with_use_alt pref h = record {
    t0 = d.t0;
    lht = d.lht;
    tn = d.tn;
    use_alt_on_na = h;
    bank_tick_ctr = d.bank_tick_ctr;
    lfsr_high = d.lfsr_high;
    lfsr_low = d.lfsr_low;
    ghr = d.ghr;
    fh_idx = d.fh_idx;
    fh_tag8 = d.fh_tag8;
    fh_tag7 = d.fh_tag7;
  }

  pub with_registers :
      (count l : ℕ)
      → count < banktick_max
      → l < 2 ^ 8
      → 1 ≤ l
      → DirFits (record dir { bank_tick_ctr = count; lfsr = l })
  with_registers count l h high low = record {
    t0 = d.t0;
    lht = d.lht;
    tn = d.tn;
    use_alt_on_na = d.use_alt_on_na;
    bank_tick_ctr = h;
    lfsr_high = high;
    lfsr_low = low;
    ghr = d.ghr;
    fh_idx = d.fh_idx;
    fh_tag8 = d.fh_tag8;
    fh_tag7 = d.fh_tag7;
  }

  pub with_halved :
      (tn : ℕ → ℕ → TageEntry)
      → ((table i : ℕ) → RowFits (tn table i))
      → DirFits (record dir { bank_tick_ctr = 0; tn = tn })
  with_halved tn h = record {
    t0 = d.t0;
    lht = d.lht;
    tn = h;
    use_alt_on_na = d.use_alt_on_na;
    bank_tick_ctr = omega arith;
    lfsr_high = d.lfsr_high;
    lfsr_low = d.lfsr_low;
    ghr = d.ghr;
    fh_idx = d.fh_idx;
    fh_tag8 = d.fh_tag8;
    fh_tag7 = d.fh_tag7;
  }

  pub put_row-DirFits :
      (table index : ℕ) (row : TageEntry) → RowFits row → DirFits (put_row table index row dir)
  put_row-DirFits table index row r =
      with_tn (λ t. if t == table then put index row (dir.tn table) else dir.tn t)
        (λ t i. elim (Bool-cases (t == table)) [
          | inl e ↦ rw (e) (put_all RowFits index row (dir.tn table) (d.tn table) r i)
          | inr e ↦ rw (e) (d.tn t i)
        ])
