-- ===== src/Dcache/Flat/Access.antt =====
-- The lines that an access of the data cache reads and leaves, against the flat memory.
use rv32im_simulator.Prelude.{
  ℕ, ◌+◌, ◌<<<◌, ◌>>>◌, ◌^◌, ◌<◌, ◌≤◌, ◌≡◌, inl, inr, refl, sym, ap, ◌∙◌, true, false, ◌==◌, ==_iff,
  Bool-cases, ltb, length, get_or, u32, arith,
}
use rv32im_simulator.Memory.{Memory, mem_size, read_data, read_data-outside}
use rv32im_simulator.Imem.{line_bytes}
use rv32im_simulator.Dcache.{
  CacheSet, DataLine, set_index, line_tag, line_offset, line_at, put_bytes,
}
use rv32im_simulator.Dcache.Ways.{matches, lookup_cases}
use rv32im_simulator.Dcache.Flat.{
  GoodLine, Sound, line_base, flat, flat_in, flat_in-hit, flat_in-miss, address_parts, line_parts,
}
use rv32im_simulator.Dcache.Flat.Replace.{with_set}
use rv32im_simulator.Dcache.Bytes.{Agree, store_n_bytes, put_bytes-Agree}
use rv32im_simulator.Dcache.Evict.{get_or-line_bytes}

module _ (mem : Memory) (sets : ℕ → CacheSet) (sound : Sound mem sets) where
  -- The byte of the flat memory past the end of the memory is 0.
  flat-outside : (addr : ℕ) → ltb addr mem_size ≡ false → flat mem sets addr ≡ 0
  flat-outside addr out =
      let index = set_index addr in
      let (parts, offset, in_sets) = address_parts addr in
      let good = sound index in_sets in
      elim (lookup_cases (line_tag addr) (sets index).lines) [
        | inl (_, no_way) ↦
            flat_in-miss mem (sets index) addr no_way ∙ read_data-outside mem addr out
        | inr (w, l, _, m) ↦
            let lw : w < 4 = let f = good.four in omega arith in
            let line = line_at (sets index).lines w in
            let valid : line.valid ≡ true = ground arith in
            let same_tag : line_tag addr ≡ line.tag = ground arith in
            let past : mem_size ≤ addr = ground arith in
            flat_in-hit mem index (sets index) good addr w lw m
            ∙ (good.lines w lw).outside valid (line_offset addr) offset
                (omega (arith, parts, same_tag, past))
      ]

  pub read_data-flat : (addr : ℕ) → read_data (flat mem sets) addr ≡ flat mem sets addr
  unfolding read_data
  read_data-flat addr = elim (Bool-cases (ltb addr mem_size)) [
    | inl fits ↦ rw fits refl
    | inr out ↦ rw out (sym (flat-outside addr out))
  ]

  -- The bytes of a line that an address hits are those of the flat memory.
  pub hit-Agree :
      (addr w : ℕ)
      → w < 4
      → matches (line_tag addr) (line_at (sets (set_index addr)).lines w) ≡ true
      → Agree (line_at (sets (set_index addr)).lines w).bytes (flat mem sets) addr
  hit-Agree addr w lw m b lb =
      let index = set_index addr in
      let (_, _, in_sets) = address_parts addr in
      let (tag_at, index_at, offset_at) = line_parts (line_tag addr) index b in_sets lb in
      let there = line_base (line_tag addr) index + b in
      let m' : matches (line_tag there) (line_at (sets index).lines w) ≡ true =
        ap (λ tag. matches tag (line_at (sets index).lines w)) tag_at ∙ m in
      ap (λ o. get_or (line_at (sets index).lines w).bytes o 0) (sym offset_at)
      ∙ sym (flat_in-hit mem index (sets index) (sound index in_sets) there w lw m')
      ∙ ap (λ i. flat_in mem (sets i) there) (sym index_at)
      ∙ sym (read_data-flat there)

  -- The bytes that the memory gives for a line that is not cached are those of the flat memory.
  pub miss-Agree :
      (addr : ℕ)
      → addr < 2 ^ 32
      → ((w : ℕ)
          → w < length (sets (set_index addr)).lines
          → matches (line_tag addr) (line_at (sets (set_index addr)).lines w) ≡ false)
      → (b : ℕ) → b < 16
      → (get_or (line_bytes mem (addr >>> 4 <<< 4 >>> 4 <<< 4) 0 16) b 0
          ≡ read_data mem (line_base (line_tag addr) (set_index addr) + b))
        × (read_data mem (line_base (line_tag addr) (set_index addr) + b)
            ≡ read_data (flat mem sets) (line_base (line_tag addr) (set_index addr) + b))
  miss-Agree addr small no_way b lb =
      let index = set_index addr in
      let (_, _, in_sets) = address_parts addr in
      let there = line_base (line_tag addr) index + b in
      let (tag_at, index_at, _) = line_parts (line_tag addr) index b in_sets lb in
      let base_at : u32 ((addr >>> 4 <<< 4 >>> 4 <<< 4) + (0 + b)) ≡ there = omega arith in
      (
        get_or-line_bytes mem (addr >>> 4 <<< 4 >>> 4 <<< 4) 0 16 b lb ∙ ap (read_data mem) base_at,
        sym (
              flat_in-miss mem (sets index) there
                (λ w l. ap (λ tag. matches tag (line_at (sets index).lines w)) tag_at ∙ no_way w l))
            ∙ ap (λ i. flat_in mem (sets i) there) (sym index_at)
            ∙ sym (read_data-flat there),
      )

  -- A change of the bits that tell the way to evict changes nothing else.
  pub touched-Sound :
      (index plru : ℕ) → Sound mem (with_set index (record (sets index) { plru = plru }) sets)
  touched-Sound index plru i l = elim (Bool-cases (i == index)) [
    | inl e ↦
        let same = (==_iff i index).0 e in
        let good = sound i l in
        rw (e, ← same) (record { four = good.four; lines = good.lines; apart = good.apart })
    | inr e ↦ rw e (sound i l)
  ]

  pub flat-touched :
      (index plru addr : ℕ)
      → flat mem (with_set index (record (sets index) { plru = plru }) sets) addr
        ≡ flat mem sets addr
  flat-touched index plru addr = elim (Bool-cases (set_index addr == index)) [
    | inl e ↦
        let same = (==_iff (set_index addr) index).0 e in
        let chosen : with_set index (record (sets index) { plru = plru }) sets (set_index addr)
            ≡ record (sets index) { plru = plru } =
          rw e refl in
        ap (λ cache_set. flat_in mem cache_set addr) chosen
        ∙ ap (λ i. flat_in mem (sets i) addr) (sym same)
    | inr e ↦ rw e refl
  ]

-- A line that a store has written, of which the bytes agree with the memory before it.
module _ (mem mem' : Memory) (addr value n : ℕ) (line : DataLine) (small : addr < 2 ^ 32)
    (inside : line_offset addr + n ≤ 16) (storage : length line.bytes ≡ 16)
    (agree : Agree line.bytes mem addr) where
  abbrev pub stored_line : DataLine
  stored_line = record {
    valid = true;
    dirty = true;
    bytes = put_bytes addr value n 4 0 line.bytes;
    tag = line_tag addr;
  }

  abbrev pub stored : Memory
  stored = store_n_bytes addr value n 4 0 mem

  both : (length stored_line.bytes ≡ 16) × Agree stored_line.bytes stored addr
  both = put_bytes-Agree addr value n 4 0 line.bytes mem small inside storage agree

  pub stored-Agree : Agree stored_line.bytes stored addr
  stored-Agree = both.1

  pub stored-GoodLine : GoodLine mem' (set_index addr) stored_line
  stored-GoodLine = record {
    storage = both.0;
    dirty_valid = λ e. refl;
    small = λ e. omega arith;
    clean = λ e clean. absurd (ground arith);
    outside = λ e b lb past. both.1 b lb ∙ read_data-outside stored _ (ground arith);
  }
