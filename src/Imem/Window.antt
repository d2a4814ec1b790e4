-- ===== src/Imem/Window.antt =====
-- The places of the requests in the queue of src/IMEM/IMEM.cpp through a release and a claim.
use rv32im_simulator.Prelude.{
  ℕ, ◌+◌, ◌-◌, ◌%◌, ◌^◌, ◌<◌, ◌≤◌, ◌≡◌, ◌≢◌, inl, inr, sym, ap, ◌∙◌, true, false, Bool-cases,
  length, set, length-set, arith, u8,
}
use rv32im_simulator.Memory.{Memory}
use rv32im_simulator.Imem.{
  Imem, ImemRequest, imem_cap, request_at, is_return_ready, pop, new_request, is_counting,
}
use rv32im_simulator.Imem.Lines.{Sound, MayFollow, IsFilled-new, request_at-set}

-- What the queue is between the release, the claim and the countdown.
pub record Between (mem : Memory) (old next : Imem) : Type 0 where
  pub memory : next.mem ≡ mem
  pub storage : length next.reqs ≡ imem_cap
  pub head_in : next.head < imem_cap
  pub count_in : next.count ≤ imem_cap
  pub counting :
      (i : ℕ)
      → i < imem_cap
      → is_counting (request_at next.reqs i) ≡ true
      → (i + imem_cap - next.head) % imem_cap < next.count
  pub follows :
      (i : ℕ) → i < imem_cap → MayFollow mem (request_at old.reqs i) (request_at next.reqs i)

-- The requests that count in one queue lie in the window of another.
abbrev pub InWindow : Imem → Imem → Type 0
InWindow old next =
    (i : ℕ)
    → i < imem_cap
    → is_counting (request_at old.reqs i) ≡ true
    → (i + imem_cap - next.head) % imem_cap < next.count

-- The window without its first place.
window_pop :
    (i h c : ℕ)
    → i < imem_cap
    → h < imem_cap
    → c ≤ imem_cap
    → i ≢ h
    → (i + imem_cap - h) % imem_cap < c
    → (i + imem_cap - (h + 1) % imem_cap) % imem_cap < u8 (c + 2 ^ 8 - 1)
window_pop i h c li lh lc ne w = omega arith

-- The window with one more place at its end.
window_push :
    (i h c : ℕ)
    → c < imem_cap
    → (i + imem_cap - h) % imem_cap < c
    → (i + imem_cap - h) % imem_cap < u8 (c + 1)
window_push i h c lc w = omega arith

window_last :
    (h c : ℕ) → h < imem_cap → c < imem_cap → ((h + c) % imem_cap + imem_cap - h) % imem_cap ≡ c
window_last h c lh lc = omega arith

-- What a queue that is ready to answer has at its head.
pub ready-head :
    (imem : Imem)
    → is_return_ready imem ≡ true
    → (0 < imem.count)
      × ((request_at imem.reqs imem.head).valid ≡ true)
      × ((request_at imem.reqs imem.head).remain_cycle ≡ 0)
unfolding is_return_ready
ready-head imem ready = (ground arith, ground arith, ground arith)

head-counting :
    (imem : Imem)
    → is_return_ready imem ≡ true
    → (i : ℕ) → is_counting (request_at imem.reqs i) ≡ true
    → i ≢ imem.head
head-counting imem ready i c e =
    let zero_left = (ready-head imem ready).2 in
    let counts : is_counting (request_at imem.reqs imem.head) ≡ true = rw (← e) c in ground arith

pub pop-InWindow :
    (mem : Memory) (old : Imem)
    → Sound mem old
    → is_return_ready old ≡ true
    → InWindow old (pop old)
unfolding pop
pop-InWindow mem old s ready i l c =
    window_pop i old.head old.count l s.head_in s.count_in (head-counting old ready i c)
      (s.counting i l c)

pub pop-Between :
    (mem : Memory) (old : Imem)
    → Sound mem old
    → is_return_ready old ≡ true
    → Between mem old (pop old)
unfolding pop
pop-Between mem old s ready =
    let some_left = (ready-head old ready).0 in
    let in_range : old.head < length old.reqs = rw s.storage s.head_in in
    let empty : ImemRequest = record (request_at old.reqs old.head) {
      valid = false;
      remain_cycle = 0;
    } in
    record {
      memory = s.memory;
      storage = length-set old.reqs old.head empty ∙ s.storage;
      head_in = omega arith;
      count_in = omega (arith, s.count_in);
      counting = λ i l. elim (request_at-set old.reqs old.head empty i in_range) [
        | inl (e, at) ↦ λ c. ground arith
        | inr (ne, at) ↦ λ c.
            window_pop i old.head old.count l s.head_in s.count_in ne
              (s.counting i l (ap is_counting (sym at) ∙ c))
      ];
      follows = λ i l. elim (request_at-set old.reqs old.head empty i in_range) [
        | inl (e, at) ↦ inr (inl (ap (λ r. r.valid) at))
        | inr (ne, at) ↦ inl at
      ];
    }

pub push-Between :
    (mem : Memory) (old next : Imem) (addr : ℕ)
    → InWindow old next
    → Between mem old next
    → next.count < imem_cap
    → addr % 16 ≡ 0
    → addr < 2 ^ 32
    → Between mem old (record next {
      reqs = set next.reqs ((next.head + next.count) % imem_cap) (new_request addr);
      count = u8 (next.count + 1);
    })
push-Between mem old next addr w b room aligned small =
    let index = (next.head + next.count) % imem_cap in
    let in_range : index < length next.reqs = rw b.storage (omega arith) in
    let last = window_last next.head next.count b.head_in room in
    let free : (i : ℕ) → i < imem_cap → i ≡ index → is_counting (request_at old.reqs i) ≡ false =
      λ i l e. elim (Bool-cases (is_counting (request_at old.reqs i))) [
        | inl c ↦
            absurd (omega (arith, w i l c, last, ap (λ j. (j + imem_cap - next.head) % imem_cap) e))
        | inr c ↦ c
      ] in
    record {
      memory = b.memory;
      storage = length-set next.reqs index (new_request addr) ∙ b.storage;
      head_in = b.head_in;
      count_in = omega arith;
      counting = λ i l. elim (request_at-set next.reqs index (new_request addr) i in_range) [
        | inl (e, at) ↦ λ c. rw e (omega (arith, last, room))
        | inr (ne, at) ↦ λ c.
            window_push i next.head next.count room (b.counting i l (ap is_counting (sym at) ∙ c))
      ];
      follows = λ i l. elim (request_at-set next.reqs index (new_request addr) i in_range) [
        | inl (e, at) ↦ inr (inr (free i l e, rw at (IsFilled-new mem addr aligned small)))
        | inr (ne, at) ↦ rw at (b.follows i l)
      ];
    }
