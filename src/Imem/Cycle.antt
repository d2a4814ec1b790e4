-- ===== src/Imem/Cycle.antt =====
-- A cycle of the instruction memory of src/IMEM/IMEM.cpp.
use rv32im_simulator.Prelude.{
  ℕ, zero, suc, ◌%◌, ◌^◌, ◌<◌, ◌≤◌, ◌≡◌, inl, inr, refl, sym, ap, ◌∙◌, true, false, ◌==◌,
  Bool-cases, some, length, replicate, length-replicate, arith,
}
use rv32im_simulator.Memory.{Memory}
use rv32im_simulator.Fetch.{FetchDecision}
use rv32im_simulator.Imem.{
  Imem, ImemInput, imem_cap, zero_request, request_at, initial, clear, is_return_ready,
  is_request_full, pop, push_request, is_counting, count_down, count_all, released, claimed, tick,
}
use rv32im_simulator.Imem.Lines.{
  Sound, count_down-IsFilled, count_down-counting, request_at-count_all, length-count_all,
}
use rv32im_simulator.Imem.Window.{
  Between, InWindow, ready-head, pop-Between, pop-InWindow, push-Between,
}

-- Without a release and a claim nothing changes.
old-Between : (mem : Memory) (old : Imem) → Sound mem old → Between mem old old
old-Between mem old s = record {
  memory = s.memory;
  storage = s.storage;
  head_in = s.head_in;
  count_in = s.count_in;
  counting = s.counting;
  follows = λ i l. inl refl;
}

pop-count : (imem : Imem) → 0 < imem.count → imem.count ≤ imem_cap → (pop imem).count < imem_cap
unfolding pop
pop-count imem some_left l = omega arith

released-Between :
    (mem : Memory) (input : ImemInput) (old : Imem)
    → Sound mem old
    → (input.line_consumed ≡ true → is_return_ready old ≡ true)
    → Between mem old (released input old)
      × InWindow old (released input old)
      × (old.count < imem_cap → (released input old).count < imem_cap)
unfolding released
released-Between mem input old s consumed = elim (Bool-cases input.line_consumed) [
  | inl c ↦
      let ready = consumed c in
      rw c (
        pop-Between mem old s ready,
        pop-InWindow mem old s ready,
        λ l. pop-count old (ready-head old ready).0 s.count_in,
      )
  | inr c ↦ rw c (old-Between mem old s, s.counting, λ l. l)
]

-- The assertion of a claim holds if there is room.
claimed-Between :
    (mem : Memory) (decision : FetchDecision) (old next : Imem)
    → Between mem old next
    → InWindow old next
    → (decision.valid ≡ true
        → (next.count < imem_cap) × (decision.pc % 16 ≡ 0) × (decision.pc < 2 ^ 32))
    → (after : Imem) × (claimed decision next ≡ some after) × Between mem old after
unfolding claimed push_request
claimed-Between mem decision old next b w fetches = elim (Bool-cases decision.valid) [
  | inl v ↦
      let (room, aligned, small) = fetches v in
      let not_full : (next.count == imem_cap) ≡ false = ground arith in
      rw (v, not_full) (_, refl, push-Between mem old next decision.pc w b room aligned small)
  | inr v ↦ rw v (next, refl, b)
]

-- The countdown ends the cycle.
counted-Sound :
    (mem : Memory) (old next : Imem)
    → Sound mem old
    → Between mem old next
    → Sound mem (record next { reqs = count_all old.mem old.reqs next.reqs })
counted-Sound mem old next s b =
    let same_length : length old.reqs ≡ length next.reqs = s.storage ∙ sym b.storage in
    let at : (i : ℕ)
        → i < imem_cap
        → request_at (count_all old.mem old.reqs next.reqs) i
          ≡ count_down old.mem (request_at old.reqs i) (request_at next.reqs i) =
      λ i l. request_at-count_all old.mem old.reqs next.reqs i same_length (rw s.storage l) in
    record {
      memory = b.memory;
      storage = length-count_all old.mem old.reqs next.reqs ∙ b.storage;
      head_in = b.head_in;
      count_in = b.count_in;
      counting = λ i l c. b.counting i l (
          count_down-counting old.mem (request_at old.reqs i) (request_at next.reqs i)
            (rw s.memory (b.follows i l)) (ap is_counting (sym (at i l)) ∙ c));
      filled = λ i l.
          rw (at i l, s.memory)
            (count_down-IsFilled mem (request_at old.reqs i) (request_at next.reqs i) (s.filled i l)
              (b.follows i l));
    }

pub get_or-replicate : (n i : ℕ) → request_at (replicate n zero_request) i ≡ zero_request
get_or-replicate zero i = refl
get_or-replicate (suc n) zero = refl
get_or-replicate (suc n) (suc i) = get_or-replicate n i

-- The empty queue.
pub initial-Sound : (mem : Memory) → Sound mem (initial mem)
initial-Sound mem = record {
  memory = refl;
  storage = length-replicate imem_cap zero_request;
  head_in = omega arith;
  count_in = omega arith;
  counting = λ i l c.
      let e : is_counting zero_request ≡ true =
        ap is_counting (sym (get_or-replicate imem_cap i)) ∙ c in
      ground arith;
  filled = λ i l. rw (get_or-replicate imem_cap i) (λ v. absurd (ground arith));
}

-- From a sound queue, if a line is consumed only when the queue is ready to answer, and an aligned
-- line below 2 ^ 32 is claimed only when the queue is not full, a tick meets no failed assertion
-- and leaves a sound queue: the requests that count lie in its window, and each one that is done
-- holds the sixteen bytes of memory at its address.
pub tick-Sound :
    (mem : Memory) (input : ImemInput) (old : Imem)
    → Sound mem old
    → (input.line_consumed ≡ true → is_return_ready old ≡ true)
    → (input.decision.valid ≡ true
        → (is_request_full old ≡ false)
          × (input.decision.pc % 16 ≡ 0)
          × (input.decision.pc < 2 ^ 32))
    → (next : Imem) × (tick input old ≡ some next) × Sound mem next
unfolding tick clear is_request_full
tick-Sound mem input old s consumed fetches = elim (Bool-cases input.squash.need_squash) [
  | inl q ↦ rw q (_, refl, rw s.memory (initial-Sound mem))
  | inr q ↦
      let (b, w, room) = released-Between mem input old s consumed in
      let (next, claim, after) =
        claimed-Between mem input.decision old (released input old) b w (λ v.
          let (free, aligned, small) = fetches v in
          let left : old.count < imem_cap = let l = s.count_in in ground arith in
          (room left, aligned, small)) in
      rw (q, claim) (_, refl, counted-Sound mem old next s after)
]
