-- ===== src/Rob/Window.antt =====
-- What the reorder buffer holds: the allocations from the `h`-th up to the `n`-th, each in the slot
-- and under the tag that its number gives.
use native.Mathlib.Decide.{dec_lt}
use rv32im_simulator.Prelude.{
  ℕ, zero, suc, ◌+◌, ◌%◌, ◌≤◌, ◌<◌, ◌==◌, true, Bool-cases, ◌≡◌, ◌≢◌, refl, ap, ◌∙◌, inl, inr, List,
  [], ◌∷◌, length, get_or, set, length-set, get_or-set_self, get_or-set_ne, arith,
}
use rv32im_simulator.Tags.{rob_cap, rob_slot, rob_next_tag}
use rv32im_simulator.Tags.Order.{tag_of, rob_next_tag-tag_of}
use rv32im_simulator.Packet.{RobEntry}
use rv32im_simulator.Rob.{
  Rob, entry_at, default_entry, is_full, is_empty, matches_tag, push, pop, set_rob_commit_ready,
  flush,
}

pub record Window (rob : Rob) (h n : ℕ) : Type 0 where
  pub storage : length rob.rob_queue ≡ rob_cap
  pub head_is : rob.head ≡ tag_of h
  pub next_is : rob.next_tag ≡ tag_of n
  pub ordered : h ≤ n
  pub bounded : n ≤ h + rob_cap
  pub tags : (k : ℕ) → h ≤ k → k < n → (entry_at rob (k % 16)).tag ≡ tag_of k

rob_slot-tag_of : (n : ℕ) → rob_slot (tag_of n) ≡ n % 16
rob_slot-tag_of n = omega arith

-- The flags of the reorder buffer tell the number of instructions in flight: none, or `rob_cap`.
pub flags-Window :
    (rob : Rob) (h n : ℕ)
    → Window rob h n
    → (is_empty rob ≡ (n == h)) × (is_full rob ≡ (n == h + rob_cap))
unfolding is_empty is_full
flags-Window rob h n w = (
  ground (arith, w.head_is, w.next_is, w.ordered, w.bounded),
  ground (arith, w.head_is, w.next_is, w.ordered, w.bounded),
)

-- The tag of an allocation that the reorder buffer holds is found in it.
matches_tag-Window :
    (rob : Rob) (h n k : ℕ) → Window rob h n → h ≤ k → k < n → matches_tag (tag_of k) rob ≡ true
unfolding matches_tag is_empty
matches_tag-Window rob h n k w p q =
    rw (rob_slot-tag_of k, w.tags k p q, w.head_is, w.next_is)
      (ground (arith, w.ordered, w.bounded))

tags-push :
    (entry : RobEntry) (rob : Rob) (h n k : ℕ)
    → Window rob h n
    → n < h + rob_cap
    → h ≤ k
    → k < n + 1
    → (entry_at (push entry rob) (k % 16)).tag ≡ tag_of k
unfolding push
tags-push entry rob h n k w room p q = elim (dec_lt k n) [
  | yes l ↦
      let apart : rob_slot rob.next_tag ≢ k % 16 = omega (arith, w.next_is) in
      ap (λ (e : RobEntry). e.tag)
        (get_or-set_ne rob.rob_queue (rob_slot rob.next_tag) (k % 16) _ default_entry apart)
      ∙ w.tags k p l
  | no l ↦
      let last : k ≡ n = omega arith in
      let here : k % 16 ≡ rob_slot rob.next_tag = omega (arith, w.next_is) in
      rw (here, last)
        (ap (λ (e : RobEntry). e.tag)
            (get_or-set_self rob.rob_queue (rob_slot rob.next_tag) _ default_entry
              (omega (arith, w.storage)))
          ∙ w.next_is)
]

pub push-Window :
    (entry : RobEntry) (rob : Rob) (h n : ℕ)
    → Window rob h n
    → n < h + rob_cap
    → Window (push entry rob) h (n + 1)
unfolding push
push-Window entry rob h n w room = record {
  storage = length-set rob.rob_queue (rob_slot rob.next_tag) _ ∙ w.storage;
  head_is = w.head_is;
  next_is = ap rob_next_tag w.next_is ∙ rob_next_tag-tag_of n;
  ordered = omega (arith, w.ordered);
  bounded = omega arith;
  tags = λ k p q. tags-push entry rob h n k w room p q;
}

pub pop-Window : (rob : Rob) (h n : ℕ) → Window rob h n → h < n → Window (pop rob) (h + 1) n
unfolding pop
pop-Window rob h n w some_left = record {
  storage = w.storage;
  head_is = ap rob_next_tag w.head_is ∙ rob_next_tag-tag_of h;
  next_is = w.next_is;
  ordered = omega arith;
  bounded = omega (arith, w.bounded);
  tags = λ k p q. w.tags k (omega arith) q;
}

pub flush-Window :
    (rob : Rob) (h n k : ℕ)
    → Window rob h n
    → h ≤ k
    → k < n
    → Window (flush (tag_of k) rob) h (k + 1)
unfolding flush
flush-Window rob h n k w p q = rw (matches_tag-Window rob h n k w p q) (record {
  storage = w.storage;
  head_is = w.head_is;
  next_is = rob_next_tag-tag_of k;
  ordered = omega arith;
  bounded = omega (arith, w.bounded);
  tags = λ i a b. w.tags i a (omega arith);
})

-- A write that keeps the tag of its slot keeps all tags.
tag-set :
    (xs : List RobEntry) (i j : ℕ) (e d : RobEntry)
    → e.tag ≡ (get_or xs i d).tag
    → (get_or (set xs i e) j d).tag ≡ (get_or xs j d).tag
tag-set [] i j e d h = refl
tag-set (x ∷ xs) zero zero e d h = h
tag-set (x ∷ xs) zero (suc j) e d h = refl
tag-set (x ∷ xs) (suc i) zero e d h = refl
tag-set (x ∷ xs) (suc i) (suc j) e d h = tag-set xs i j e d h

pub ready-Window :
    (tag : ℕ) (rob : Rob) (h n : ℕ) → Window rob h n → Window (set_rob_commit_ready tag rob) h n
unfolding set_rob_commit_ready
ready-Window tag rob h n w = elim (Bool-cases (matches_tag tag rob)) [
  | inl found ↦ rw found (record {
    storage = length-set rob.rob_queue (rob_slot tag) _ ∙ w.storage;
    head_is = w.head_is;
    next_is = w.next_is;
    ordered = w.ordered;
    bounded = w.bounded;
    tags =
        λ k p q. tag-set rob.rob_queue (rob_slot tag) (k % 16) _ default_entry refl ∙ w.tags k p q;
  })
  | inr lost ↦ rw lost w
]
