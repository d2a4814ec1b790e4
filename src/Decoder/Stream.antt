-- ===== src/Decoder/Stream.antt =====
-- The fetch queue and the queue of micro-operations of src/Decoder/Decoder.cpp together, as one stream.
use mathlib.Core.List.{append_assoc}
use rv32im_simulator.Prelude.{
  Bool, true, false, not, ◌&&◌, Bool-cases, if◌then◌else◌, Option, none, some, List, [], ◌∷◌, ◌++◌,
  map, ◌≡◌, refl, sym, ap, ◌∙◌, inl, inr, get_or, arith,
}
use rv32im_simulator.Ring
use rv32im_simulator.Ring.{Ring}
use rv32im_simulator.Ring.Contents.{IsValid, contents}
use rv32im_simulator.Ring.Stream.{optional, when, enter, leave, HasRoom, stream-cycle}
use rv32im_simulator.FetchQueue
use rv32im_simulator.FetchQueue.{FetchQueue, FetchEntry, FetchInput, fq_cap, zero_entry, head_entry}
use rv32im_simulator.FetchQueue.Stream.{accepted, delivered, delivers, entries, entries-tick}
use rv32im_simulator.Decoder.{Uop}
use rv32im_simulator.Decoder.Queue.{
  UopQueue, DecodeInput, iq_cap, zero_uop, decode_entry, head_uop, is_empty, is_full, push, pop,
  tick,
}

abbrev pub uops : UopQueue → List Uop
uops d = contents iq_cap zero_uop d

-- The micro-operation that the decode unit takes in.
abbrev taken : Bool → FetchQueue → Option Uop
taken b q = if b then some (decode_entry (get_or q.ring.slots q.ring.head zero_entry)) else none

map_append : {A B : Type 0} (f : A → B) (xs ys : List A) → map f (xs ++ ys) ≡ map f xs ++ map f ys
map_append f [] ys = refl
map_append f (x ∷ xs) ys = ap (λ l. f x ∷ l) (map_append f xs ys)

-- The decode unit takes what the fetch queue gives in the same cycle: both read the flag of the queue
-- of micro-operations before the tick.
queue-tick :
    (dec : DecodeInput) (d : UopQueue)
    → dec.squash.need_squash ≡ false
    → tick dec d
      ≡ leave iq_cap zero_uop dec.issue_valid (
          enter iq_cap zero_uop
            (taken (not (FetchQueue.is_empty dec.fetch_queue) && not (is_full d)) dec.fetch_queue)
            d)
unfolding tick pop push FetchQueue.head_entry FetchQueue.is_empty is_full Ring.push Ring.pop
queue-tick dec d calm = elim (Bool-cases (Ring.is_empty dec.fetch_queue.ring)) [
  | inl e ↦ elim (Bool-cases dec.issue_valid) [
    | inl i ↦ rw (calm, e, i) refl
    | inr i ↦ rw (calm, e, i) refl
  ]
  | inr e ↦ elim (Bool-cases (Ring.is_full iq_cap d)) [
    | inl f ↦ elim (Bool-cases dec.issue_valid) [
      | inl i ↦ rw (calm, e, f, i) refl
      | inr i ↦ rw (calm, e, f, i) refl
    ]
    | inr f ↦ elim (Bool-cases dec.issue_valid) [
      | inl i ↦ rw (calm, e, f, i) refl
      | inr i ↦ rw (calm, e, f, i) refl
    ]
  ]
]

taken-HasRoom :
    (full : Bool) (q : FetchQueue) (d : UopQueue)
    → full ≡ is_full d
    → HasRoom iq_cap zero_uop (taken (not (FetchQueue.is_empty q) && not full) q) d
unfolding is_full
taken-HasRoom full q d h = elim (Bool-cases (FetchQueue.is_empty q)) [
  | inl e ↦ rw e tt
  | inr e ↦ elim (Bool-cases full) [ inl f ↦ rw (e, f) tt | inr f ↦ rw (e, f) (ground arith) ]
]

-- In a cycle without a squash, in which the fetch queue sees the decode unit's full flag, both
-- rings are valid and an instruction is issued only if one is queued, the issued micro-operation,
-- those still queued and the decoded entries still in the fetch queue are, in this order, those
-- that were queued, the decoded entries of the fetch queue and the decoded entry that it takes in.
pub uops-tick :
    (fetch : FetchInput) (dec : DecodeInput) (d : UopQueue)
    → fetch.squash.need_squash ≡ false
    → dec.squash.need_squash ≡ false
    → fetch.decode_is_full ≡ is_full d
    → IsValid fq_cap dec.fetch_queue.ring
    → IsValid iq_cap d
    → (dec.issue_valid ≡ true → is_empty d ≡ false)
    → when dec.issue_valid (head_uop d)
        ++ uops (tick dec d)
        ++ map decode_entry (entries (FetchQueue.tick fetch dec.fetch_queue))
      ≡ uops d
        ++ map decode_entry (entries dec.fetch_queue)
        ++ map decode_entry (optional (accepted fetch dec.fetch_queue))
unfolding head_uop is_empty
uops-tick fetch dec d c1 c2 full vq vd issue =
    let q = dec.fetch_queue in
    let got = taken (not (FetchQueue.is_empty q) && not (is_full d)) q in
    let left = map decode_entry (entries (FetchQueue.tick fetch q)) in
    let cycle =
      stream-cycle iq_cap zero_uop got dec.issue_valid d vd (taken-HasRoom (is_full d) q d refl)
        issue in
    let decoded : optional got ≡ map decode_entry (delivered fetch q) =
      elim (Bool-cases (delivers fetch q)) [
        | inl b ↦ rw (← full, b) refl
        | inr b ↦ rw (← full, b) refl
      ] in
    let both = entries-tick fetch q c1 vq in
    ap (λ l. l ++ left)
      (ap (λ t. when dec.issue_valid (head_uop d) ++ uops t) (queue-tick dec d c2) ∙ cycle)
    ∙ append_assoc (uops d) (optional got) left
    ∙ ap (λ l. uops d ++ l)
        (ap (λ l. l ++ left) decoded
          ∙ sym (map_append decode_entry (delivered fetch q) (entries (FetchQueue.tick fetch q)))
          ∙ ap (map decode_entry) both
          ∙ map_append decode_entry (entries q) (optional (accepted fetch q)))
    ∙ sym (append_assoc (uops d) (map decode_entry (entries q)) _)
