-- ===== src/Prf/FreeList.antt =====
-- The free list of src/PRF/PRF.cpp as a queue of registers: its `k`-th event stands in the slot that the number gives.
use rv32im_simulator.Prelude.{
  ℕ, ◌+◌, ◌%◌, ◌≤◌, ◌<◌, ◌==◌, true, false, Bool-cases, Option, none, some, ◌≡◌, ◌≢◌, ◌⊎◌, refl, ap,
  ◌∙◌, inl, inr, length, get_or, set, length-set, get_or-set_self, get_or-set_ne, arith,
}
use rv32im_simulator.Types.{invalid_phy}
use rv32im_simulator.Tags.{prf_cap, prf_slot, prf_seq_next}
use rv32im_simulator.Tags.Order.{seq_of, prf_seq_next-seq_of, prf_seq_distance-seq_of}
use rv32im_simulator.Prf.{Prf, is_free_list_empty, get_free_list_slot, pop, push, initial}
use rv32im_simulator.Prf.Tick.{PrfInput, restore_head}

-- The registers that are free are the events from the `h`-th up to the `t`-th.
pub record Free (p : Prf) (h t : ℕ) : Type 0 where
  pub storage : length p.free_list ≡ prf_cap
  pub head_is : p.head_seq ≡ seq_of h
  pub tail_is : p.tail_seq ≡ seq_of t
  pub ordered : h ≤ t
  pub bounded : t ≤ h + prf_cap

-- The register that the `k`-th event put into the list.
abbrev pub register : Prf → ℕ → ℕ
register p k = get_or p.free_list (k % 48) invalid_phy

prf_slot-seq_of : (n : ℕ) → prf_slot (seq_of n) ≡ n % 48
prf_slot-seq_of n = omega arith

pub empty-Free : (p : Prf) (h t : ℕ) → Free p h t → is_free_list_empty p ≡ (t == h)
unfolding is_free_list_empty
empty-Free p h t f = ground (arith, f.head_is, f.tail_is, f.ordered, f.bounded)

-- The outcome of a pop.
abbrev pub Popped : Prf → ℕ → ℕ → Option (ℕ × Prf) → Type 0
Popped p h t none = (h ≡ t) ⊎ (register p h ≡ invalid_phy)
Popped p h t (some (phy, next)) =
    (phy ≡ register p h) × (h < t) × Free next (h + 1) t × (next.free_list ≡ p.free_list)

-- If the free registers are the events from `h` up to `t`, a pop that succeeds gives the register
-- of event `h`, leaves the events from `h + 1` and the list as they are, and one that fails found
-- no event or register 0.
pub pop-Free : (p : Prf) (h t : ℕ) → Free p h t → Popped p h t (pop p)
unfolding pop get_free_list_slot
pop-Free p h t f =
    let slot : prf_slot p.head_seq ≡ h % 48 = omega (arith, f.head_is) in
    elim (Bool-cases (is_free_list_empty p)) [
      | inl b ↦ rw b (inl (ground (arith, empty-Free p h t f)))
      | inr b ↦ elim (Bool-cases (register p h == invalid_phy)) [
        | inl z ↦ rw (b, slot, z) (inr (ground arith))
        | inr z ↦
            rw (b, slot, z)
              (
                refl,
                ground (arith, empty-Free p h t f, f.ordered),
                record {
                  storage = f.storage;
                  head_is = ap prf_seq_next f.head_is ∙ prf_seq_next-seq_of h;
                  tail_is = f.tail_is;
                  ordered = ground (arith, empty-Free p h t f, f.ordered);
                  bounded = omega (arith, f.bounded);
                },
                refl,
              )
      ]
    ]

-- If the free registers are the events from `h` up to `t`, fewer than `prf_cap`, a push of a
-- register other than 0 succeeds, becomes event `t`, and leaves the events before it as they are.
pub push-Free :
    (index : ℕ) (p : Prf) (h t : ℕ)
    → Free p h t
    → t < h + prf_cap
    → index ≢ invalid_phy
    → (next : Prf) × (push index p ≡ some next)
      × Free next h (t + 1)
      × (register next t ≡ index)
      × ((k : ℕ) → h ≤ k → k < t → register next k ≡ register p k)
unfolding push
push-Free index p h t f room real =
    let slot : prf_slot p.tail_seq ≡ t % 48 = omega (arith, f.tail_is) in
    let valid : (index == invalid_phy) ≡ false = ground arith in
    (
      record p { free_list = set p.free_list (t % 48) index; tail_seq = prf_seq_next p.tail_seq },
      rw (valid, slot) refl,
      record {
        storage = length-set p.free_list (t % 48) index ∙ f.storage;
        head_is = f.head_is;
        tail_is = ap prf_seq_next f.tail_is ∙ prf_seq_next-seq_of t;
        ordered = omega (arith, f.ordered);
        bounded = omega arith;
      },
      get_or-set_self p.free_list (t % 48) index invalid_phy (omega (arith, f.storage)),
      λ k lo hi.
          get_or-set_ne p.free_list (t % 48) (k % 48) index invalid_phy (omega (arith, f.bounded)),
    )

-- On a squash whose checkpoint saved the head before event `saved`, not after the present head and
-- at most `prf_cap` events before the tail, the head is restored without a failed assertion, and
-- the free registers are the events from `saved` on in an unchanged list.
pub restore-Free :
    (input : PrfInput) (old next : Prf) (saved h t : ℕ)
    → Free next h t
    → input.squash.need_squash ≡ true
    → get_or old.head_ckpt input.squash.ckpt_id 0 ≡ seq_of saved
    → saved ≤ h
    → t ≤ saved + prf_cap
    → (restored : Prf) × (restore_head input old next ≡ some restored)
      × Free restored saved t
      × (restored.free_list ≡ next.free_list)
unfolding restore_head
restore-Free input old next saved h t f q e lo hi = (
  record next { head_seq = seq_of saved },
  ground (arith, f.tail_is, f.ordered, prf_seq_distance-seq_of saved t),
  record {
    storage = f.storage;
    head_is = refl;
    tail_is = f.tail_is;
    ordered = omega (arith, f.ordered);
    bounded = hi;
  },
  refl,
)

pub initial-Free : Free initial 0 16
unfolding initial prf_seq_next
initial-Free = record {
  storage = refl;
  head_is = refl;
  tail_is = refl;
  ordered = omega arith;
  bounded = omega arith;
}
