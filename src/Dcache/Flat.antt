-- ===== src/Dcache/Flat.antt =====
-- The data cache and the data memory together as one flat memory, and the invariant under which the
-- cache of src/DCache/DCache.cpp keeps it.
pub mod Replace
pub mod Access
use rv32im_simulator.Prelude.{
  ℕ, ◌+◌, ◌*◌, ◌^◌, ◌<◌, ◌≤◌, ◌≡◌, ◌≢◌, refl, sym, ap, ◌∙◌, Bool, Bool-cases, true, false, Option,
  none, some, List, length, get_or, inl, inr, arith,
}
use rv32im_simulator.Memory.{Memory, mem_size, read_data}
use rv32im_simulator.Dcache.{
  Dcache, CacheSet, DataLine, set_index, line_tag, line_offset, line_at, find_way,
}
use rv32im_simulator.Dcache.Ways.{matches, lookup_cases, find_way_unique, find_way-none}

-- The first address of a line.
abbrev pub line_base : ℕ → ℕ → ℕ
line_base tag index = tag * 2 ^ 14 + index * 2 ^ 4

-- A line has sixteen bytes, is dirty only if it is valid, and belongs to a 32-bit address. The bytes of
-- a clean line are those of the memory, and the bytes past the end of the memory are 0.
pub record GoodLine (mem : Memory) (index : ℕ) (line : DataLine) : Type 0 where
  pub storage : length line.bytes ≡ 16
  pub dirty_valid : line.dirty ≡ true → line.valid ≡ true
  pub small : line.valid ≡ true → line.tag < 2 ^ 18
  pub clean :
      line.valid ≡ true
      → line.dirty ≡ false
      → (b : ℕ) → b < 16
      → get_or line.bytes b 0 ≡ read_data mem (line_base line.tag index + b)
  pub outside :
      line.valid ≡ true
      → (b : ℕ) → b < 16
      → mem_size ≤ line_base line.tag index + b
      → get_or line.bytes b 0 ≡ 0

-- A set has four lines, no two of which are valid with the same tag.
pub record GoodSet (mem : Memory) (index : ℕ) (cache_set : CacheSet) : Type 0 where
  pub four : length cache_set.lines ≡ 4
  pub lines : (w : ℕ) → w < 4 → GoodLine mem index (line_at cache_set.lines w)
  pub apart :
      (tag v w : ℕ)
      → v < 4
      → w < 4
      → matches tag (line_at cache_set.lines v) ≡ true
      → matches tag (line_at cache_set.lines w) ≡ true
      → v ≡ w

abbrev pub Sound : Memory → (ℕ → CacheSet) → Type 0
Sound mem sets = (index : ℕ) → index < 1024 → GoodSet mem index (sets index)

-- The byte at an address: that of the cached line, if there is one.
abbrev pub flat_in : Memory → CacheSet → ℕ → ℕ
flat_in mem cache_set addr = elim (find_way (line_tag addr) cache_set.lines 0 none) [
  | some way ↦ get_or (line_at cache_set.lines way).bytes (line_offset addr) 0
  | none ↦ read_data mem addr
]

abbrev pub flat : Memory → (ℕ → CacheSet) → Memory
flat mem sets addr = flat_in mem (sets (set_index addr)) addr

module _ (mem : Memory) (index : ℕ) (cache_set : CacheSet)
    (good : GoodSet mem index cache_set) where
  pub flat_in-hit :
      (addr w : ℕ)
      → w < 4
      → matches (line_tag addr) (line_at cache_set.lines w) ≡ true
      → flat_in mem cache_set addr ≡ get_or (line_at cache_set.lines w).bytes (line_offset addr) 0
  flat_in-hit addr w l m =
      let found : find_way (line_tag addr) cache_set.lines 0 none ≡ some w =
        find_way_unique (line_tag addr) cache_set.lines w (rw good.four l) m
          (λ v lv mv. good.apart (line_tag addr) v w (let f = good.four in omega arith) l mv m) in
      rw (found, flat_in) refl

  -- A way other than the one that fits does not fit.
  pub only_way :
      (tag v w : ℕ)
      → v < 4
      → w < 4
      → v ≢ w
      → matches tag (line_at cache_set.lines v) ≡ true
      → matches tag (line_at cache_set.lines w) ≡ false
  only_way tag v w lv lw other m = elim (Bool-cases (matches tag (line_at cache_set.lines w))) [
    | inl m' ↦ absurd (other (good.apart tag v w lv lw m m'))
    | inr m' ↦ m'
  ]

pub matches-own : (line : DataLine) → line.valid ≡ true → matches line.tag line ≡ true
matches-own line valid = ground arith

-- Every address of a line has its tag.
pub matches-address :
    (line : DataLine) (index b : ℕ)
    → index < 1024
    → b < 16
    → line.valid ≡ true
    → matches (line_tag (line_base line.tag index + b)) line ≡ true
matches-address line index b l lb valid =
    let same_tag : line_tag (line_base line.tag index + b) ≡ line.tag = omega arith in
    ap (λ tag. matches tag line) same_tag ∙ matches-own line valid

pub flat_in-miss :
    (mem : Memory) (cache_set : CacheSet) (addr : ℕ)
    → ((w : ℕ)
        → w < length cache_set.lines
        → matches (line_tag addr) (line_at cache_set.lines w) ≡ false)
    → flat_in mem cache_set addr ≡ read_data mem addr
flat_in-miss mem cache_set addr no_way =
    rw (find_way-none (line_tag addr) cache_set.lines no_way, flat_in) refl

-- Only the memory's byte at the address counts.
pub flat_in-same :
    (mem mem' : Memory) (cache_set : CacheSet) (addr : ℕ)
    → read_data mem' addr ≡ read_data mem addr
    → flat_in mem' cache_set addr ≡ flat_in mem cache_set addr
flat_in-same mem mem' cache_set addr e = elim (lookup_cases (line_tag addr) cache_set.lines) [
  | inl (found, _) ↦ rw (found, flat_in) e
  | inr (w, l, found, m) ↦ rw (found, flat_in) refl
]

-- An address in terms of its line.
pub address_parts :
    (addr : ℕ)
    → (line_base (line_tag addr) (set_index addr) + line_offset addr ≡ addr)
      × (line_offset addr < 16)
      × (set_index addr < 1024)
address_parts addr = (omega arith, omega arith, omega arith)

pub line_parts :
    (tag index b : ℕ)
    → index < 1024
    → b < 16
    → (line_tag (line_base tag index + b) ≡ tag)
      × (set_index (line_base tag index + b) ≡ index)
      × (line_offset (line_base tag index + b) ≡ b)
line_parts tag index b l lb = (omega arith, omega arith, omega arith)
