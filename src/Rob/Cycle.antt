-- ===== src/Rob/Cycle.antt =====
-- `ROB::tick` of src/ROB/ROB.cpp on the window of the instructions in flight.
use native.Mathlib.Decide.{dec_lt}
use rv32im_simulator.Prelude.{
  ℕ, zero, suc, ◌+◌, ◌≤◌, ◌<◌, Bool, true, false, Bool-cases, if◌then◌else◌, ◌≡◌, ◌≢◌, sym, ap, ◌∙◌,
  inl, inr, arith,
}
use rv32im_simulator.Types.{SquashInfo}
use rv32im_simulator.Tags.{rob_cap}
use rv32im_simulator.Tags.Order.{tag_of}
use rv32im_simulator.Packet.{ResultBus}
use rv32im_simulator.Sq.{sq_cap}
use rv32im_simulator.Rob.{
  Rob, is_empty, is_head_halt, will_commit, push, pop, set_rob_commit_ready, flush,
}
use rv32im_simulator.Rob.Tick.{
  RobInput, ready_branch, ready_stores, ready_bus, ready_checked_bus, commit, tick,
}
use rv32im_simulator.Rob.Window.{Window, push-Window, pop-Window, flush-Window, ready-Window}

guarded-Window :
    (b : Bool) (tag : ℕ) (rob : Rob) (h n : ℕ)
    → Window rob h n
    → Window (if b then set_rob_commit_ready tag rob else rob) h n
guarded-Window true tag rob h n w = ready-Window tag rob h n w
guarded-Window false tag rob h n w = w

ready_stores-Window :
    (input : RobInput) (rounds k : ℕ) (rob : Rob) (h n : ℕ)
    → Window rob h n
    → Window (ready_stores input rounds k rob) h n
unfolding ready_stores
ready_stores-Window input zero k rob h n w = w
ready_stores-Window input (suc rounds) k rob h n w =
    ready_stores-Window input rounds (suc k) _ h n (guarded-Window _ _ rob h n w)

branch-Window :
    (input : RobInput) (rob : Rob) (h n : ℕ) → Window rob h n → Window (ready_branch input rob) h n
unfolding ready_branch
branch-Window input rob h n w = guarded-Window _ _ rob h n w

bus-Window :
    (squash : SquashInfo) (bus : ResultBus) (rob : Rob) (h n : ℕ)
    → Window rob h n
    → Window (ready_bus squash bus rob) h n
unfolding ready_bus
bus-Window squash bus rob h n w = guarded-Window _ _ rob h n w

checked-Window :
    (squash : SquashInfo) (bus : ResultBus) (old rob : Rob) (h n : ℕ)
    → Window rob h n
    → Window (ready_checked_bus squash bus old rob) h n
unfolding ready_checked_bus
checked-Window squash bus old rob h n w = guarded-Window _ _ rob h n w

-- Completions change no place in the window.
abbrev marked : RobInput → Rob → Rob → Rob
marked input old issued = ready_checked_bus input.squash input.cdb_of_div old (
    ready_checked_bus input.squash input.cdb_of_mul old (
      ready_bus input.squash input.cdb_of_lq (
        ready_bus input.squash input.cdb_of_alu
          (ready_stores input sq_cap 0 (ready_branch input issued)))))

marked-Window :
    (input : RobInput) (old issued : Rob) (h n : ℕ)
    → Window issued h n
    → Window (marked input old issued) h n
marked-Window input old issued h n w = checked-Window input.squash input.cdb_of_div old _ h n (
    checked-Window input.squash input.cdb_of_mul old _ h n (
      bus-Window input.squash input.cdb_of_lq _ h n (
        bus-Window input.squash input.cdb_of_alu _ h n
          (ready_stores-Window input sq_cap 0 _ h n (branch-Window input _ h n w)))))

commit-Window :
    (old next : Rob) (h n : ℕ) → Window next h n → h < n → Window (commit old next) (h + 1) n
unfolding commit pop
commit-Window old next h n w p =
    let popped = pop-Window next h n w p in
    elim (Bool-cases (is_head_halt old)) [
      | inl b ↦ rw b (record {
        storage = popped.storage;
        head_is = popped.head_is;
        next_is = popped.next_is;
        ordered = popped.ordered;
        bounded = popped.bounded;
        tags = popped.tags;
      })
      | inr b ↦ rw b popped
    ]

-- The squash names an instruction in flight, the `k`-th.
abbrev pub SquashesAt : SquashInfo → ℕ → ℕ → ℕ → Type 0
SquashesAt squash h n k =
    squash.need_squash ≡ true → (squash.squash_tag ≡ tag_of k) × (h ≤ k) × (k < n)

-- The window's end after issue and squash, and its start after commit.
abbrev pub end_after : RobInput → ℕ → ℕ → ℕ
end_after input n k =
    if input.squash.need_squash then k + 1 else if input.packet.valid then n + 1 else n

abbrev pub start_after : RobInput → Rob → ℕ → ℕ
start_after input rob h = if will_commit input.squash rob then h + 1 else h

commit_room :
    (input : RobInput) (rob : Rob) (h n k : ℕ)
    → Window rob h n
    → SquashesAt input.squash h n k
    → will_commit input.squash rob ≡ true
    → h < end_after input n k
unfolding will_commit is_empty
commit_room input rob h n k w s c = elim (Bool-cases input.squash.need_squash) [
  | inl q ↦ rw q (omega (arith, (s q).1))
  | inr q ↦
      let busy : rob.head ≢ rob.next_tag = ground arith in
      let left : h < n = elim (dec_lt h n) [
        | yes l ↦ l
        | no l ↦
            let same : h ≡ n = omega (arith, w.ordered) in
            absurd (busy (w.head_is ∙ ap tag_of same ∙ sym w.next_is))
      ] in
      rw q (ground arith)
]

issue-Window :
    (input : RobInput) (rob : Rob) (h n : ℕ)
    → Window rob h n
    → (input.packet.valid ≡ true → n < h + rob_cap)
    → Window
        (if input.packet.valid then push input.packet.rob_entry rob else rob)
        h
        (if input.packet.valid then n + 1 else n)
issue-Window input rob h n w room = elim (Bool-cases input.packet.valid) [
  | inl v ↦ rw v (push-Window input.packet.rob_entry rob h n w (room v))
  | inr v ↦ rw v w
]

squash-Window :
    (input : RobInput) (rob : Rob) (h n k : ℕ)
    → Window rob h (if input.packet.valid then n + 1 else n)
    → SquashesAt input.squash h n k
    → Window
        (if input.squash.need_squash then flush input.squash.squash_tag rob else rob)
        h
        (end_after input n k)
squash-Window input rob h n k w s = elim (Bool-cases input.squash.need_squash) [
  | inl q ↦ rw (q, (s q).0) (flush-Window rob h _ k w (s q).1 (ground (arith, (s q).2)))
  | inr q ↦ rw q w
]

-- If the reorder buffer holds the allocations from `h` up to `n`, an instruction is issued only
-- with room, and a squash names the `k`-th allocation, which is in flight, then after a tick the
-- buffer holds those from `h`, or from `h + 1` if the head commits, up to `k + 1` on a squash,
-- otherwise up to `n + 1` on an issue and `n` without one.
pub tick-Window :
    (input : RobInput) (rob : Rob) (h n k : ℕ)
    → Window rob h n
    → (input.packet.valid ≡ true → n < h + rob_cap)
    → SquashesAt input.squash h n k
    → Window (tick input rob) (start_after input rob h) (end_after input n k)
unfolding tick
tick-Window input rob h n k w room s =
    let squashed =
      squash-Window input _ h n k
        (marked-Window input rob _ h _ (issue-Window input rob h n w room)) s in
    elim (Bool-cases (will_commit input.squash rob)) [
      | inl c ↦ rw c (commit-Window rob _ h _ squashed (commit_room input rob h n k w s c))
      | inr c ↦ rw c squashed
    ]
