-- ===== src/Ring/Contents.antt =====
-- A ring as the list of its entries, oldest first.
use native.Mathlib.Nat.{mod-eq_of_lt, mod-eq-sub-mod, mod-lt}
use native.Mathlib.Decide.{dec_lt}
use rv32im_simulator.Prelude.{
  ℕ, zero, suc, ◌+◌, ◌-◌, ◌%◌, ◌<◌, ◌≡◌, ◌≢◌, ◌⊎◌, inl, inr, refl, ap₂, ap, ◌∙◌, ◌==◌, false, List,
  [], ◌∷◌, ◌++◌, length, get_or, set, get_or-set_self, get_or-set_ne, length-set, arith,
}
use rv32im_simulator.Ring.{Ring, is_empty, is_full, push, pop, size}

-- One step round a ring.
step_cases :
    {cap h : ℕ}
    → h < cap
    → ((h + 1) % cap ≡ h + 1) × (h + 1 < cap) ⊎ ((h + 1) % cap ≡ 0) × (h + 1 ≡ cap)
step_cases {cap} {h} l = grind arith

-- The way from one index on to another.
way_cases :
    (cap h t : ℕ)
    → h < cap
    → t < cap
    → let n = (t + cap - h) % cap in (n < cap) × ((h + n ≡ t) ⊎ (h + n ≡ t + cap))
way_cases cap h t p q = elim (dec_lt t h) [
  | yes l ↦ (
    mod-lt _ (omega arith),
    inr (rw (mod-eq_of_lt {n = t + cap - h} {m = cap} (omega arith)) (omega arith)),
  )
  | no l ↦ (
    mod-lt _ (omega arith),
    inl (
        rw
          (
            mod-eq-sub-mod {n = t + cap - h} {m = cap} (omega arith),
            mod-eq_of_lt {n = t + cap - h - cap} {m = cap} (omega arith),
          )
          (omega arith)),
  )
]

module _ {ℓ} (cap : ℕ) {A : Type ℓ} where
  pub record IsValid (q : Ring A) : Type 0 where
    pub storage : length q.slots ≡ cap
    pub head_in : q.head < cap
    pub tail_in : q.tail < cap

  pub push-IsValid : {q : Ring A} (x : A) → IsValid q → IsValid (push cap x q)
  unfolding push
  push-IsValid {q} x v = record {
    storage = length-set q.slots q.tail x ∙ v.storage;
    head_in = v.head_in;
    tail_in = mod-lt _ (omega arith);
  }

  pub pop-IsValid : {q : Ring A} → IsValid q → IsValid (pop cap q)
  unfolding pop
  pop-IsValid v = record {
    storage = v.storage;
    head_in = mod-lt _ (omega arith);
    tail_in = v.tail_in;
  }

  -- The `n` entries from index `h` on, round the end.
  abbrev pub window : A → List A → ℕ → ℕ → List A
  window d slots h zero = []
  window d slots h (suc n) = get_or slots h d ∷ window d slots ((h + 1) % cap) n

  abbrev pub contents : A → Ring A → List A
  contents d q = window d q.slots q.head (size cap q)

  length-window : (d : A) (slots : List A) (h n : ℕ) → length (window d slots h n) ≡ n
  length-window d slots h zero = refl
  length-window d slots h (suc n) = ap suc (length-window d slots ((h + 1) % cap) n)

  -- Writing just past a window lengthens it by the new entry.
  window_push :
      (d x : A) (slots : List A) (h n t : ℕ)
      → length slots ≡ cap
      → h < cap
      → n < cap
      → t < cap
      → (h + n ≡ t) ⊎ (h + n ≡ t + cap)
      → window d (set slots t x) h (suc n) ≡ window d slots h n ++ (x ∷ [])
  window_push d x slots h zero t l hh hn ht e =
      let at : h ≡ t = omega arith in
      rw at (ap (λ y. y ∷ []) (get_or-set_self slots t x d (omega arith)))
  window_push d x slots h (suc n) t l hh hn ht e =
      let apart : t ≢ h = omega arith in
      ap₂ ◌∷◌ (get_or-set_ne slots t h x d apart) (
        window_push d x slots ((h + 1) % cap) n t l (mod-lt _ (omega arith)) (omega arith) ht
          (omega (arith, step_cases hh)))

  size_cases :
      (q : Ring A)
      → IsValid q
      → (size cap q < cap) × ((q.head + size cap q ≡ q.tail) ⊎ (q.head + size cap q ≡ q.tail + cap))
  unfolding size
  size_cases q v = way_cases cap q.head q.tail v.head_in v.tail_in

  -- An entry pushed on a valid ring that is not full becomes the last of its contents.
  pub contents-push :
      (d x : A) (q : Ring A)
      → IsValid q
      → is_full cap q ≡ false
      → contents d (push cap x q) ≡ contents d q ++ (x ∷ [])
  unfolding push is_full
  contents-push d x q v e =
      let n = size cap q in
      let room : (q.tail + 1) % cap ≢ q.head = ground arith in
      let grown : size cap (push cap x q) ≡ suc n = omega (
        arith,
        step_cases v.tail_in,
        size_cases q v,
        size_cases (push cap x q) (push-IsValid x v),
      ) in
      rw grown (
        window_push d x q.slots q.head n q.tail v.storage v.head_in (size_cases q v).0 v.tail_in
          (size_cases q v).1)

  -- Popping a valid ring that is not empty takes away the first of its contents, the entry at
  -- `head`.
  pub contents-pop :
      (d : A) (q : Ring A)
      → IsValid q
      → is_empty q ≡ false
      → contents d q ≡ get_or q.slots q.head d ∷ contents d (pop cap q)
  unfolding pop is_empty
  contents-pop d q v e =
      let apart : q.head ≢ q.tail = ground arith in
      let shrunk : size cap q ≡ suc (size cap (pop cap q)) =
        omega
          (arith, step_cases v.head_in, size_cases q v, size_cases (pop cap q) (pop-IsValid v)) in
      rw shrunk

  -- The flags of a valid ring tell its number of entries: none, or one less than the slots.
  flags-size :
      (q : Ring A)
      → IsValid q
      → (is_empty q ≡ (size cap q == 0)) × (is_full cap q ≡ (size cap q + 1 == cap))
  unfolding is_empty is_full
  flags-size q v =
      let steps = step_cases v.tail_in in let sizes = size_cases q v in (ground arith, ground arith)
