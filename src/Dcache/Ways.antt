-- ===== src/Dcache/Ways.antt =====
-- The searches of a set of the data cache, for a tag and for a way to fill.
use mathlib.Core.Option
use rv32im_simulator.Prelude.{
  sym, Option-cases, ℕ, zero, suc, ◌+◌, ◌<◌, ◌≡◌, ◌⊎◌, inl, inr, refl, ap, ◌∙◌, Bool, true, false,
  ◌&&◌, ◌==◌, if◌then◌else◌, Bool-cases, Option, none, some, List, [], ◌∷◌, length, arith,
}
use rv32im_simulator.Dcache.{
  DataLine, CacheSet, line_at, find_way, first_invalid, victim_of, allocate_line,
}

-- The test of the search.
abbrev pub matches : ℕ → DataLine → Bool
matches tag line = (line.tag == tag) && line.valid

-- The search gives a way that fits, or what it had found before if no way fits.
find_way-cases :
    (tag : ℕ) (lines : List DataLine) (i : ℕ) (found : Option ℕ)
    → ((find_way tag lines i found ≡ found)
        × ((w : ℕ) → w < length lines → matches tag (line_at lines w) ≡ false))
      ⊎ ((w : ℕ) × (w < length lines)
          × (find_way tag lines i found ≡ some (i + w))
          × (matches tag (line_at lines w) ≡ true))
unfolding find_way
find_way-cases tag [] i found = inl (refl, λ w l. absurd (omega arith))
find_way-cases tag (line ∷ rest) i found =
    elim (find_way-cases tag rest (suc i) (if matches tag line then some i else found)) [
      | inr (w, l, e, m) ↦ inr (suc w, omega arith, e ∙ ap some (omega arith), m)
      | inl (e, no_way) ↦ elim (Bool-cases (matches tag line)) [
        | inl m ↦ inr (zero, omega arith, e ∙ rw m (ap some (omega arith)), m)
        | inr m ↦ inl (e ∙ rw m refl, shift no_way m)
      ]
    ]
  where
    shift :
        ((w : ℕ) → w < length rest → matches tag (line_at rest w) ≡ false)
        → matches tag line ≡ false
        → (w : ℕ) → w < length (line ∷ rest)
        → matches tag (line_at (line ∷ rest) w) ≡ false
    shift no_way m zero l = m
    shift no_way m (suc w) l = no_way w (omega arith)

-- The search from the first way on.
pub lookup_cases :
    (tag : ℕ) (lines : List DataLine)
    → ((find_way tag lines 0 none ≡ none)
        × ((w : ℕ) → w < length lines → matches tag (line_at lines w) ≡ false))
      ⊎ ((w : ℕ) × (w < length lines)
          × (find_way tag lines 0 none ≡ some w)
          × (matches tag (line_at lines w) ≡ true))
lookup_cases tag lines = elim (find_way-cases tag lines 0 none) [
  | inl nothing ↦ inl nothing
  | inr (w, l, e, m) ↦ inr (w, l, e ∙ ap some (omega arith), m)
]

-- A way that fits and is the only one is found.
pub find_way_unique :
    (tag : ℕ) (lines : List DataLine) (w : ℕ)
    → w < length lines
    → matches tag (line_at lines w) ≡ true
    → ((v : ℕ) → v < length lines → matches tag (line_at lines v) ≡ true → v ≡ w)
    → find_way tag lines 0 none ≡ some w
find_way_unique tag lines w l m only = elim (lookup_cases tag lines) [
  | inl (e, no_way) ↦ absurd (let n = no_way w l in cc)
  | inr (v, lv, e, mv) ↦ e ∙ ap some (only v lv mv)
]

pub find_way-none :
    (tag : ℕ) (lines : List DataLine)
    → ((v : ℕ) → v < length lines → matches tag (line_at lines v) ≡ false)
    → find_way tag lines 0 none ≡ none
find_way-none tag lines no_way = elim (lookup_cases tag lines) [
  | inl (e, _) ↦ e
  | inr (v, lv, e, mv) ↦ absurd (let n = no_way v lv in cc)
]

-- The way that a miss takes is one of the four.
first_invalid-found : (lines : List DataLine) (i w : ℕ) → first_invalid lines i (some w) ≡ some w
unfolding first_invalid
first_invalid-found [] i w = refl
first_invalid-found (line ∷ rest) i w = first_invalid-found rest (suc i) w

first_invalid-lt :
    (lines : List DataLine) (i w : ℕ) → first_invalid lines i none ≡ some w → w < i + length lines
unfolding first_invalid
first_invalid-lt [] i w e = absurd (ground arith)
first_invalid-lt (line ∷ rest) i w e = elim (Bool-cases line.valid) [
  | inl v ↦
      let step_on : first_invalid (line ∷ rest) i none ≡ first_invalid rest (suc i) none =
        rw v refl in
      let later : first_invalid rest (suc i) none ≡ some w = sym step_on ∙ e in
      omega (arith, first_invalid-lt rest (suc i) w later)
  | inr v ↦
      let stops : first_invalid (line ∷ rest) i none ≡ some i =
        rw v (first_invalid-found rest (suc i) i) in
      let here : i ≡ w = Option.some-injective i w (sym stops ∙ e) in omega arith
]

victim_of-lt : (plru : ℕ) → victim_of plru < 4
unfolding victim_of
victim_of-lt plru = ground arith

pub allocate_line-lt :
    (cache_set : CacheSet) → length cache_set.lines ≡ 4 → allocate_line cache_set < 4
unfolding allocate_line
allocate_line-lt cache_set four = elim (Option-cases (first_invalid cache_set.lines 0 none)) [
  | inl none_free ↦ rw (none_free, allocate_line) (victim_of-lt cache_set.plru)
  | inr (w, free) ↦
      rw (free, allocate_line) (omega (arith, first_invalid-lt cache_set.lines 0 w free))
]
