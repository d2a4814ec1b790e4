-- ===== src/Dcache/Flat/Replace.antt =====
-- The flat memory when one line of the data cache is replaced, or written.
use rv32im_simulator.Prelude.{
  ℕ, ◌+◌, ◌<◌, ◌≡◌, ◌≢◌, ◌⊎◌, sym, ap, ap₂, ◌∙◌, ◌==◌, ==_iff, Bool-cases, true, false,
  if◌then◌else◌, length-set, set, get_or, get_or-set_self, get_or-set_ne, inl, inr, arith,
}
use rv32im_simulator.Memory.{Memory, read_data}
use rv32im_simulator.Dcache.{
  CacheSet, DataLine, empty_line, set_index, line_tag, line_offset, line_at,
}
use rv32im_simulator.Dcache.Ways.{matches, lookup_cases}
use rv32im_simulator.Dcache.Flat.{
  GoodLine, GoodSet, Sound, line_base, flat_in, flat, flat_in-hit, flat_in-miss, flat_in-same,
  only_way, matches-own, matches-address, address_parts, line_parts,
}

-- The sets of a cache with one of them changed.
abbrev pub with_set : ℕ → CacheSet → (ℕ → CacheSet) → ℕ → CacheSet
with_set index cache_set sets i = if i == index then cache_set else sets i

-- The line at a way is replaced by a valid one, and the memory may change in the old line only. An
-- address of the old line that is not in the new one is in the memory now.
module _ (mem mem' : Memory) (sets : ℕ → CacheSet) (index w plru : ℕ) (line : DataLine)
    (sound : Sound mem sets) (in_sets : index < 1024) (in_ways : w < 4)
    (good : GoodLine mem' index line) (line_valid : line.valid ≡ true)
    (alone : (v : ℕ) → v < 4 → v ≢ w → matches line.tag (line_at (sets index).lines v) ≡ false)
    (elsewhere : (addr : ℕ)
      → (set_index addr ≢ index) ⊎ (matches (line_tag addr) (line_at (sets index).lines w) ≡ false)
      → read_data mem' addr ≡ read_data mem addr)
    (evicted : (addr : ℕ)
      → set_index addr ≡ index
      → matches (line_tag addr) (line_at (sets index).lines w) ≡ true
      → line_tag addr ≢ line.tag
      → read_data mem' addr ≡ flat mem sets addr) where
  abbrev pub changed : CacheSet
  changed = record { lines = set (sets index).lines w line; plru = plru }

  abbrev pub sets' : ℕ → CacheSet
  sets' = with_set index changed sets

  old_good : GoodSet mem index (sets index)
  old_good = sound index in_sets

  line_at-replaced : line_at changed.lines w ≡ line
  line_at-replaced = get_or-set_self (sets index).lines w line empty_line (rw old_good.four in_ways)

  line_at-changed :
      (v : ℕ)
      → ((v ≡ w) × (line_at changed.lines v ≡ line))
        ⊎ ((v ≢ w) × (line_at changed.lines v ≡ line_at (sets index).lines v))
  line_at-changed v = elim (Bool-cases (v == w)) [
    | inl e ↦ let same = (==_iff v w).0 e in inl (same, rw same line_at-replaced)
    | inr e ↦
        let other : v ≢ w = ground arith in
        inr (other, get_or-set_ne (sets index).lines w v line empty_line (λ p. other (sym p)))
  ]

  -- A line other than the replaced one keeps its properties.
  kept-GoodLine : (v : ℕ) → v < 4 → v ≢ w → GoodLine mem' index (line_at (sets index).lines v)
  kept-GoodLine v l other =
      let old = old_good.lines v l in
      record {
        storage = old.storage;
        dirty_valid = old.dirty_valid;
        small = old.small;
        clean = λ valid clean b lb.
            old.clean valid clean b lb
            ∙ sym (
                elsewhere _ (
                  inr (
                    only_way mem index (sets index) old_good _ v w l in_ways other
                      (matches-address (line_at (sets index).lines v) index b in_sets lb valid))));
        outside = old.outside;
      }

  -- The changed set is good.
  changed-GoodSet : GoodSet mem' index changed
  changed-GoodSet = record {
    four = length-set (sets index).lines w line ∙ old_good.four;
    lines = λ v l. elim (line_at-changed v) [
      | inl (e, at) ↦ rw at good
      | inr (other, at) ↦ rw at (kept-GoodLine v l other)
    ];
    apart = λ tag u v lu lv mu mv. elim (line_at-changed u) [
      | inl (eu, au) ↦ elim (line_at-changed v) [
        | inl (ev, av) ↦ eu ∙ sym ev
        | inr (ov, av) ↦ absurd (clash tag v lv ov (rw (← au) mu) (rw (← av) mv))
      ]
      | inr (ou, au) ↦ elim (line_at-changed v) [
        | inl (ev, av) ↦ absurd (clash tag u lu ou (rw (← av) mv) (rw (← au) mu))
        | inr (ov, av) ↦ old_good.apart tag u v lu lv (rw (← au) mu) (rw (← av) mv)
      ]
    ];
  }
    where
      clash :
          (tag v : ℕ)
          → v < 4
          → v ≢ w
          → matches tag line ≡ true
          → matches tag (line_at (sets index).lines v) ≡ true
          → ⊥
      clash tag v lv other here there =
          let same_tag : tag ≡ line.tag = ground arith in
          let not_there = alone v lv other in
          let there' : matches line.tag (line_at (sets index).lines v) ≡ true =
            rw (← same_tag) there in
          cc

  -- A set other than the changed one is good as before.
  other-GoodSet : (i : ℕ) → i < 1024 → i ≢ index → GoodSet mem' i (sets i)
  other-GoodSet i l other =
      let old = sound i l in
      record {
        four = old.four;
        lines = λ v lv.
            let was = old.lines v lv in
            record {
              storage = was.storage;
              dirty_valid = was.dirty_valid;
              small = was.small;
              clean = λ valid clean b lb.
                  was.clean valid clean b lb
                  ∙ sym (
                      elsewhere _ (
                        inl (λ e.
                          other (sym (line_parts (line_at (sets i).lines v).tag i b l lb).1 ∙ e))));
              outside = was.outside;
            };
        apart = old.apart;
      }

  pub replaced-Sound : Sound mem' sets'
  replaced-Sound i l = elim (Bool-cases (i == index)) [
    | inl e ↦ let same = (==_iff i index).0 e in rw (e, same) changed-GoodSet
    | inr e ↦ let other : i ≢ index = ground arith in rw e (other-GoodSet i l other)
  ]

  -- No way of the changed set fits an address that is not in the new line, if none but the replaced way
  -- did.
  changed-miss :
      (addr : ℕ)
      → line_tag addr ≢ line.tag
      → ((v : ℕ) → v < 4 → v ≢ w → matches (line_tag addr) (line_at (sets index).lines v) ≡ false)
      → flat_in mem' changed addr ≡ read_data mem' addr
  changed-miss addr other no_way = flat_in-miss mem' changed addr (λ v l.
      let lv : v < 4 = let f = changed-GoodSet.four in omega arith in
      elim (line_at-changed v) [
        | inl (e, at) ↦ rw at (ground arith)
        | inr (ne, at) ↦ rw at (no_way v lv ne)
      ])

  -- An address of the changed set that is not in the new line.
  flat_in-changed :
      (addr : ℕ)
      → set_index addr ≡ index
      → line_tag addr ≢ line.tag
      → flat_in mem' changed addr ≡ flat_in mem (sets index) addr
  flat_in-changed addr here other = elim (lookup_cases (line_tag addr) (sets index).lines) [
    | inl (_, no_way) ↦
        let none_of : (v : ℕ)
            → v < 4
            → matches (line_tag addr) (line_at (sets index).lines v) ≡ false =
          λ v l. no_way v (rw old_good.four l) in
        changed-miss addr other (λ v l ne. none_of v l)
        ∙ elsewhere addr (inr (none_of w in_ways))
        ∙ sym (flat_in-miss mem (sets index) addr no_way)
    | inr (v, l, _, m) ↦
        let lv : v < 4 = let f = old_good.four in omega arith in
        elim (line_at-changed v) [
          | inl (e, _) ↦
              let m' : matches (line_tag addr) (line_at (sets index).lines w) ≡ true = rw (← e) m in
              changed-miss addr other (λ u lu ne.
                only_way mem index (sets index) old_good _ w u in_ways lu (λ p. ne (sym p)) m')
              ∙ evicted addr here m' other
              ∙ ap (λ i. flat_in mem (sets i) addr) here
          | inr (ne, at) ↦
              flat_in-hit mem' index changed changed-GoodSet addr v lv (rw at m)
              ∙ ap (λ (l : DataLine). get_or l.bytes (line_offset addr) 0) at
              ∙ sym (flat_in-hit mem index (sets index) old_good addr v lv m)
        ]
  ]

  module _ (target : Memory)
      (new : (b : ℕ) → b < 16 → get_or line.bytes b 0 ≡ target (line_base line.tag index + b))
      (old : (addr : ℕ)
        → (set_index addr ≢ index) ⊎ (line_tag addr ≢ line.tag)
        → target addr ≡ flat mem sets addr) where
    -- The flat memory has the new line's bytes in the new line and is unchanged elsewhere.
    pub flat-replaced : (addr : ℕ) → flat mem' sets' addr ≡ target addr
    flat-replaced addr = elim (Bool-cases (set_index addr == index)) [
      | inr e ↦
          let apart : set_index addr ≢ index = ground arith in
          rw e (flat_in-same mem mem' (sets (set_index addr)) addr (elsewhere addr (inl apart)))
          ∙ sym (old addr (inl apart))
      | inl e ↦
          let here = (==_iff (set_index addr) index).0 e in
          elim (Bool-cases (line_tag addr == line.tag)) [
            | inr t ↦
                let other : line_tag addr ≢ line.tag = ground arith in
                rw e (flat_in-changed addr here other)
                ∙ ap (λ i. flat_in mem (sets i) addr) (sym here)
                ∙ sym (old addr (inr other))
            | inl t ↦
                let same_tag = (==_iff (line_tag addr) line.tag).0 t in
                let fits : matches (line_tag addr) (line_at changed.lines w) ≡ true =
                  ap (λ l. matches (line_tag addr) l) line_at-replaced
                  ∙ ap (λ tag. matches tag line) same_tag
                  ∙ matches-own line line_valid in
                rw e (flat_in-hit mem' index changed changed-GoodSet addr w in_ways fits)
                ∙ ap (λ (l : DataLine). get_or l.bytes (line_offset addr) 0) line_at-replaced
                ∙ new (line_offset addr) (address_parts addr).1
                ∙ ap target (
                    ap₂ (λ tag i. line_base tag i + line_offset addr) (sym same_tag) (sym here)
                    ∙ (address_parts addr).0)
          ]
    ]
