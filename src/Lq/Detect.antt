-- ===== src/Lq/Detect.antt =====
-- `LQ::LoadDetect` and `LQ::CDBDetect` of src/LQ/LQ.cpp, by the places of the queue from its head on.
use native.Mathlib.Decide.{dec_lt}
use mathlib.Core.Logic.{◌↔◌}
use rv32im_simulator.Types.{ValueState, not_ready, fetching, ready}
use rv32im_simulator.Prelude.{
  ltb, ℕ, zero, suc, ◌+◌, ◌%◌, ◌≤◌, ◌<◌, ◌==◌, Bool, true, false, ◌&&◌, Bool-cases, Option, none,
  some, ◌≡◌, refl, ap, ◌∙◌, inl, inr, if◌then◌else◌, arith,
}
use rv32im_simulator.Ring
use rv32im_simulator.Lq.{
  Lq, LqEntry, lq_cap, entry_at, is_active, first_active, waits_for_memory, waits_for_bus,
  load_detect, cdb_detect, is_not_ready, is_ready_state,
}

module _ (test : LqEntry → Bool) (q : Lq) where
  -- The entry at the `k`-th place is active and passes the test.
  abbrev passes : ℕ → Bool
  passes k = let cur = (q.head + k) % lq_cap in is_active cur q && test (entry_at q cur)

  -- No place from `lo` up to `hi` passes.
  abbrev NonePasses : ℕ → ℕ → Type 0
  NonePasses lo hi = (j : ℕ) → lo ≤ j → j < hi → passes j ≡ false

  -- An answer is the index of the first place from `lo` up to `hi` that passes.
  abbrev FirstPasses : ℕ → ℕ → Option ℕ → Type 0
  FirstPasses lo hi none = NonePasses lo hi
  FirstPasses lo hi (some index) =
      (k : ℕ) × (lo ≤ k)
      × (k < hi)
      × (index ≡ (q.head + k) % lq_cap)
      × (passes k ≡ true)
      × NonePasses lo k

  none_more : (lo hi : ℕ) → passes lo ≡ false → NonePasses (suc lo) hi → NonePasses lo hi
  none_more lo hi e h j p s = elim (dec_lt lo j) [
    | yes l ↦ h j l s
    | no l ↦ let at : j ≡ lo = omega arith in ap passes at ∙ e
  ]

  further :
      (lo hi : ℕ) (answer : Option ℕ)
      → passes lo ≡ false
      → FirstPasses (suc lo) hi answer
      → FirstPasses lo hi answer
  further lo hi none e h = none_more lo hi e h
  further lo hi (some index) e (k, p, s, at, t, h) = (k, omega arith, s, at, t, none_more lo k e h)

  first_active-FirstPasses :
      (rounds k : ℕ) → FirstPasses k (k + rounds) (first_active test q rounds k)
  unfolding first_active
  first_active-FirstPasses zero k = λ j p s. absurd (omega arith)
  first_active-FirstPasses (suc rounds) k = elim (Bool-cases (passes k)) [
    | inl b ↦ rw b (k, omega arith, omega arith, refl, b, λ j p s. absurd (omega arith))
    | inr b ↦
        let hi : k + suc rounds ≡ suc k + rounds = omega arith in
        rw (b, hi) (further k (suc k + rounds) _ b (first_active-FirstPasses rounds (suc k)))
  ]

  -- The source's early return: an empty queue has no active entry.
  early : FirstPasses 0 lq_cap (if q.head == q.tail then none else first_active test q lq_cap 0)
  unfolding is_active Ring.is_active
  early = elim (Bool-cases (q.head == q.tail)) [
    | inl e ↦ rw e (λ j p s. rw e refl)
    | inr e ↦ rw e (first_active-FirstPasses lq_cap 0)
  ]

-- The places from the head on, as many as the queue has entries.
abbrev pub nth_load : Lq → ℕ → LqEntry
nth_load q k = entry_at q ((q.head + k) % lq_cap)

is_active-nth_load :
    (q : Lq) (k : ℕ)
    → q.head < lq_cap
    → q.tail < lq_cap
    → k < lq_cap
    → is_active ((q.head + k) % lq_cap) q ≡ ltb k (Ring.size lq_cap q)
unfolding is_active Ring.is_active Ring.size
is_active-nth_load q k h t l = ground arith

-- An answer is the index of the entry nearest to the head that has the property, none if no entry has it.
abbrev pub Nearest : (LqEntry → Type 0) → Lq → Option ℕ → Type 0
Nearest P q none = (k : ℕ) → k < Ring.size lq_cap q → ¬ P (nth_load q k)
Nearest P q (some index) =
    (k : ℕ) × (k < Ring.size lq_cap q)
    × (index ≡ (q.head + k) % lq_cap)
    × P (nth_load q k)
    × ((j : ℕ) → j < k → ¬ P (nth_load q j))

-- A load that memory must still answer: its address is known, and its value was not asked for.
pub record NeedsMemory (entry : LqEntry) : Type 0 where
  pub address_known : entry.is_address_ready ≡ true
  pub not_asked : entry.value_state ≡ not_ready

-- A load whose value is there and was not sent.
pub record NeedsBus (entry : LqEntry) : Type 0 where
  pub address_known : entry.is_address_ready ≡ true
  pub has_value : entry.value_state ≡ ready
  pub not_sent : entry.is_cdb_broadcast ≡ false

not_ready_iff : (state : ValueState) → (is_not_ready state ≡ true) ↔ (state ≡ not_ready)
not_ready_iff not_ready = (λ e. refl, λ e. refl)
not_ready_iff fetching = (λ e. cc, λ e. ap is_not_ready e)
not_ready_iff ready = (λ e. cc, λ e. ap is_not_ready e)

ready_iff : (state : ValueState) → (is_ready_state state ≡ true) ↔ (state ≡ ready)
ready_iff not_ready = (λ e. cc, λ e. ap is_ready_state e)
ready_iff fetching = (λ e. cc, λ e. ap is_ready_state e)
ready_iff ready = (λ e. refl, λ e. refl)

memory_iff : (entry : LqEntry) → (waits_for_memory entry ≡ true) ↔ NeedsMemory entry
memory_iff entry = (
  λ e. record {
    address_known = ground arith;
    not_asked = (not_ready_iff entry.value_state).0 (ground arith);
  },
  λ n.
      let state = (not_ready_iff entry.value_state).1 n.not_asked in
      rw (n.address_known, state) refl,
)

bus_iff : (entry : LqEntry) → (waits_for_bus entry ≡ true) ↔ NeedsBus entry
bus_iff entry = (
  λ e. record {
    address_known = ground arith;
    has_value = (ready_iff entry.value_state).0 (ground arith);
    not_sent = ground arith;
  },
  λ n.
      let state = (ready_iff entry.value_state).1 n.has_value in
      rw (n.address_known, state, n.not_sent) refl,
)

module _ (test : LqEntry → Bool) (P : LqEntry → Type 0)
    (iff : (entry : LqEntry) → (test entry ≡ true) ↔ P entry) (q : Lq) (h : q.head < lq_cap)
    (t : q.tail < lq_cap) where
  -- A place with an entry that does not pass the test does not have the property.
  lacks :
      (k : ℕ) → k < Ring.size lq_cap q → k < lq_cap → passes test q k ≡ false → ¬ P (nth_load q k)
  lacks k l small e has =
      let active = is_active-nth_load q k h t small in
      let fits = (iff (nth_load q k)).1 has in ground arith

  passes-Nearest : (answer : Option ℕ) → FirstPasses test q 0 lq_cap answer → Nearest P q answer
  unfolding Ring.size
  passes-Nearest none first =
      λ k l. let small : k < lq_cap = omega arith in lacks k l small (first k (omega arith) small)
  passes-Nearest (some index) (k, p, small, at, e, before) =
      let active = is_active-nth_load q k h t small in
      let inside : k < Ring.size lq_cap q = ground arith in
      (
        k,
        inside,
        at,
        (iff (nth_load q k)).0 (ground arith),
        λ j l. lacks j (omega arith) (omega arith) (before j (omega arith) l),
      )

-- With head and tail inside the ring, counting the entries of the load queue from the oldest on:
-- memory is given the index of the first load whose address is known and whose value was not asked
-- for, and the bus that of the first whose address is known and whose value is there and was not
-- sent; no load is given only when no entry of the queue is such a one.
pub detect-Nearest :
    (q : Lq)
    → q.head < lq_cap
    → q.tail < lq_cap
    → Nearest NeedsMemory q (load_detect q) × Nearest NeedsBus q (cdb_detect q)
unfolding load_detect cdb_detect
detect-Nearest q h t = (
  passes-Nearest waits_for_memory NeedsMemory memory_iff q h t _ (early waits_for_memory q),
  passes-Nearest waits_for_bus NeedsBus bus_iff q h t _ (early waits_for_bus q),
)
