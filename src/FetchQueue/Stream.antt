-- ===== src/FetchQueue/Stream.antt =====
-- The fetch queue of src/InstructBuffer/InstructBuffer.cpp as a stream of entries.
use mathlib.Core.List.{append_assoc, append-nil}
use rv32im_simulator.Prelude.{
  Bool, true, false, not, ◌&&◌, Bool-cases, if◌then◌else◌, Option, none, some, Option-cases, List,
  [], ◌∷◌, ◌++◌, ◌≡◌, refl, sym, ap, ◌∙◌, inl, inr, get_or, arith,
}
use rv32im_simulator.Ring
use rv32im_simulator.Ring.{Ring}
use rv32im_simulator.Ring.Contents.{IsValid, contents}
use rv32im_simulator.Ring.Stream.{
  optional, when, enter, leave, HasRoom, enter-IsValid, leave-IsValid, stream-cycle,
}
use rv32im_simulator.FetchQueue.{
  FetchQueue, FetchEntry, FetchInput, fq_cap, zero_entry, is_empty, is_full, push, pop, receive,
  tick,
}

-- The entry that the queue takes in a cycle.
abbrev pub accepted : FetchInput → FetchQueue → Option FetchEntry
accepted input q = elim input.returned [
  | none ↦ none
  | some entry ↦ if not input.halt_fetched && not (is_full q) then some entry else none
]

-- The queue gives its first entry to the decoder.
abbrev pub delivers : FetchInput → FetchQueue → Bool
delivers input q = not (is_empty q) && not input.decode_is_full

-- The entries that the decoder gets in a cycle: at most one.
abbrev pub delivered : FetchInput → FetchQueue → List FetchEntry
delivered input q = when (delivers input q) (get_or q.ring.slots q.ring.head zero_entry)

abbrev pub entries : FetchQueue → List FetchEntry
entries q = contents fq_cap zero_entry q.ring

ring-receive :
    (input : FetchInput) (q : FetchQueue)
    → (receive input q).ring ≡ enter fq_cap zero_entry (accepted input q) q.ring
unfolding receive push
ring-receive input q = ground arith

ring-tick :
    (input : FetchInput) (q : FetchQueue)
    → input.squash.need_squash ≡ false
    → (tick input q).ring
      ≡ leave fq_cap zero_entry
          (delivers input q)
          (enter fq_cap zero_entry (accepted input q) q.ring)
unfolding tick pop
ring-tick input q h = elim (Bool-cases (delivers input q)) [
  | inl d ↦ rw (h, d, ← ring-receive input q) refl
  | inr d ↦ rw (h, d, ← ring-receive input q) refl
]

accepted-HasRoom :
    (input : FetchInput) (q : FetchQueue) → HasRoom fq_cap zero_entry (accepted input q) q.ring
unfolding is_full
accepted-HasRoom input q = elim (Option-cases input.returned) [
  | inl e ↦ rw e tt
  | inr (entry, e) ↦ elim (Bool-cases (not input.halt_fetched && not (is_full q))) [
    | inl free ↦ rw (e, free) (ground arith)
    | inr shut ↦ rw (e, shut) tt
  ]
]

delivers-some :
    (input : FetchInput) (q : FetchQueue) → delivers input q ≡ true → Ring.is_empty q.ring ≡ false
unfolding is_empty
delivers-some input q h = ground arith

tick-IsValid :
    (input : FetchInput) (q : FetchQueue)
    → input.squash.need_squash ≡ false
    → IsValid fq_cap q.ring
    → IsValid fq_cap (tick input q).ring
tick-IsValid input q h v =
    rw (ring-tick input q h)
      (leave-IsValid fq_cap zero_entry _ _ (enter-IsValid fq_cap zero_entry _ _ v))

-- In a cycle without a squash nothing is lost, doubled or reordered.
pub entries-tick :
    (input : FetchInput) (q : FetchQueue)
    → input.squash.need_squash ≡ false
    → IsValid fq_cap q.ring
    → delivered input q ++ entries (tick input q) ≡ entries q ++ optional (accepted input q)
entries-tick input q h v = rw (ring-tick input q h) (
    stream-cycle fq_cap zero_entry (accepted input q) (delivers input q) q.ring v
      (accepted-HasRoom input q) (delivers-some input q))

-- The state after several cycles, what was given to the decoder, and what came in.
abbrev pub run : List FetchInput → FetchQueue → FetchQueue
run [] q = q
run (input ∷ rest) q = run rest (tick input q)

abbrev pub all_delivered : List FetchInput → FetchQueue → List FetchEntry
all_delivered [] q = []
all_delivered (input ∷ rest) q = delivered input q ++ all_delivered rest (tick input q)

abbrev pub all_accepted : List FetchInput → FetchQueue → List FetchEntry
all_accepted [] q = []
all_accepted (input ∷ rest) q = optional (accepted input q) ++ all_accepted rest (tick input q)

-- No cycle of the run squashes.
abbrev pub NoSquash : List FetchInput → Type 0
NoSquash [] = Unit
NoSquash (input ∷ rest) = (input.squash.need_squash ≡ false) × NoSquash rest

-- Over any number of cycles without a squash, from a valid ring, what the decoder was given
-- followed by what the queue still holds is what the queue held at first followed by what came in.
pub entries-run :
    (inputs : List FetchInput) (q : FetchQueue)
    → NoSquash inputs
    → IsValid fq_cap q.ring
    → all_delivered inputs q ++ entries (run inputs q) ≡ entries q ++ all_accepted inputs q
entries-run [] q h v = sym (append-nil (entries q))
entries-run (input ∷ rest) q h v =
    let next = tick input q in
    append_assoc (delivered input q) (all_delivered rest next) (entries (run rest next))
    ∙ ap (λ l. delivered input q ++ l) (entries-run rest next h.1 (tick-IsValid input q h.0 v))
    ∙ sym (append_assoc (delivered input q) (entries next) (all_accepted rest next))
    ∙ ap (λ l. l ++ all_accepted rest next) (entries-tick input q h.0 v)
    ∙ append_assoc (entries q) (optional (accepted input q)) (all_accepted rest next)
