-- ===== src/Bpu/Rewind.antt =====
-- The return stack of src/BPU/BPU.cpp, whose entries a squash writes back from the journal.
pub mod Cycle
pub mod Squash
use rv32im_simulator.Prelude.{
  ℕ, zero, suc, ◌+◌, ◌-◌, ◌*◌, ◌^◌, ◌%◌, ◌<◌, ◌≤◌, ◌≡◌, ◌≢◌, refl, sym, ap, ◌∙◌, Bool, true, false,
  not, ◌&&◌, ◌||◌, ◌==◌, leb, ltb, if◌then◌else◌, inl, inr, ◌⊎◌, Bool-cases, low_bits, add32, u8,
  u32, arith,
}
use rv32im_simulator.Fetch.{FetchDecision}
use rv32im_simulator.Bpu.{Bpu, TargetPred, AlignEntry, RasEntry, put}
use rv32im_simulator.Bpu.Predict.{ras_slot, ras_last}
use rv32im_simulator.Bpu.Stack.{
  FetchTypeInfo, journal, scan_call, scan_ret, scan_btb, scan, undo_loop,
}

-- The place of the journal that the `k`-th round of the loop reads.
abbrev read_place : TargetPred → ℕ → ℕ
read_place tgt k = low_bits 4 (u8 (tgt.align_tail + 2 ^ 8 - 1 + 2 ^ 8 - k))

-- The entry of the stack that a line of the journal stands for.
abbrev entry_at : TargetPred → ℕ → RasEntry
entry_at tgt k =
    let line = tgt.align_queue (read_place tgt k) in
    record { ret_pc = line.addr; times = line.times }

put_agree {ℓ} :
    {A : Type ℓ} (index : ℕ) (value : A) (r s : ℕ → A)
    → ((x : ℕ) → r x ≡ s x)
    → (x : ℕ) → put index value r x ≡ put index value s x
put_agree index value r s h x = elim (Bool-cases (x == index)) [
  | inl e ↦ rw (e) refl
  | inr e ↦ rw (e) (h x)
]

-- Two journals that agree on the lines that the loop reads give the same stack; the first may be `e` lines
-- ahead.
undo_agree :
    (a b : TargetPred) (e d d' n k k' : ℕ) (r s : ℕ → RasEntry)
    → d' ≡ d + e
    → k' ≡ k + e
    → ((j : ℕ) → j < d → a.align_queue (read_place a (j + e)) ≡ b.align_queue (read_place b j))
    → ((x : ℕ) → r x ≡ s x)
    → (x : ℕ) → undo_loop a d' n k' r x ≡ undo_loop b d n k s x
unfolding undo_loop
undo_agree a b e d d' zero k k' r s ed ek q h x = h x
undo_agree a b e d d' (suc n) k k' r s ed ek q h x = elim (Bool-cases (leb d k)) [
  | inl past ↦
      let past' : leb d' k' ≡ true = ground arith in
      rw (past, past') (undo_agree a b e d d' n (suc k) (suc k') r s ed (omega arith) q h x)
  | inr live ↦
      let live' : leb d' k' ≡ false = ground arith in
      let same = ap (λ j. a.align_queue (read_place a j)) ek ∙ q k (ground arith) in
      rw (live, live', same)
        (undo_agree a b e d d' n (suc k) (suc k') _ _ ed (omega arith) q (put_agree _ _ r s h) x)
]

-- Rounds past the last line do nothing.
undo_more :
    (a : TargetPred) (d n k : ℕ) (r : ℕ → RasEntry)
    → d ≤ k + n
    → undo_loop a d (suc n) k r ≡ undo_loop a d n k r
unfolding undo_loop
undo_more a d zero k r l = let past : leb d k ≡ true = ground arith in rw (past) refl
undo_more a d (suc n) k r l = undo_more a d n (suc k) _ (omega arith)

-- The first round of a journal with lines.
undo_first :
    (a : TargetPred) (d n : ℕ) (r : ℕ → RasEntry)
    → undo_loop a (suc d) (suc n) 0 r
      ≡ undo_loop a
          (suc d)
          n
          1
          (put (ras_slot (a.align_queue (read_place a 0)).index) (entry_at a 0) r)
unfolding undo_loop
undo_first a d n r = let live : leb (suc d) 0 ≡ false = ground arith in rw (live) refl

-- The stack of a state is that of another, journal included.
pub record SameStack (a b : TargetPred) : Type 0 where
  pub ras : (x : ℕ) → a.ras x ≡ b.ras x
  pub ras_top : a.ras_top ≡ b.ras_top
  pub align_queue : (x : ℕ) → a.align_queue x ≡ b.align_queue x
  pub align_tail : a.align_tail ≡ b.align_tail

-- The `d` lines that the journal has since `saved` bring its stack back, whatever stands above the top.
pub record Rewinds (saved tgt : TargetPred) (d : ℕ) : Type 0 where
  pub short : d ≤ 16
  pub tail : tgt.align_tail ≡ (saved.align_tail + d) % 2 ^ 8
  pub depth : tgt.ras_top ≤ 8
  pub back :
      (r : ℕ → RasEntry)
      → ((y : ℕ) → y < tgt.ras_top → r y ≡ tgt.ras y)
      → (x : ℕ) → x < saved.ras_top
      → undo_loop tgt d 16 0 r x ≡ saved.ras x

start-Rewinds :
    (saved : TargetPred) → saved.align_tail < 2 ^ 8 → saved.ras_top ≤ 8 → Rewinds saved saved 0
unfolding undo_loop
start-Rewinds saved small depth = record {
  short = omega arith;
  tail = omega arith;
  depth = depth;
  back = λ r agree x l. agree x l;
}

-- The places of the journal before and after a line is added.
place_next :
    (old next : TargetPred) (j : ℕ)
    → next.align_tail ≡ u8 (old.align_tail + 1)
    → j < 15
    → read_place next (j + 1) ≡ read_place old j
place_next old next j e l = omega (arith, e)

place_new :
    (old next : TargetPred)
    → next.align_tail ≡ u8 (old.align_tail + 1)
    → read_place next 0 ≡ low_bits 4 old.align_tail
place_new old next e = omega (arith, e)

place_apart :
    (old : TargetPred) (j : ℕ) → j < 15 → (read_place old j == low_bits 4 old.align_tail) ≡ false
place_apart old j l = ground arith

-- The line that holds the entry at the top.
abbrev top_line : TargetPred → AlignEntry
top_line old =
    let last = old.ras (ras_last old) in
    record { addr = last.ret_pc; index = ras_last old; times = last.times }

-- A line more in the journal, for a change of the entry at the top or its removal.
module _ (saved old next : TargetPred) (d : ℕ) (w : Rewinds saved old d) (room : suc d ≤ 16)
    (some_top : 1 ≤ old.ras_top) (tail : next.align_tail ≡ u8 (old.align_tail + 1))
    (lines : (x : ℕ)
      → next.align_queue x ≡ put (low_bits 4 old.align_tail) (top_line old) old.align_queue x)
    (lower : next.ras_top ≤ old.ras_top) (upper : old.ras_top ≤ next.ras_top + 1)
    (kept : (y : ℕ) → y < next.ras_top → y ≢ ras_last old → next.ras y ≡ old.ras y) where
  older_line :
      (j : ℕ)
      → j < d
      → next.align_queue (read_place next (j + 1)) ≡ old.align_queue (read_place old j)
  older_line j l =
      ap next.align_queue (place_next old next j tail (omega arith))
      ∙ lines (read_place old j)
      ∙ rw (place_apart old j (omega arith)) refl

  newest_line : next.align_queue (read_place next 0) ≡ top_line old
  newest_line =
      let here : (low_bits 4 old.align_tail == low_bits 4 old.align_tail) ≡ true = ground arith in
      ap next.align_queue (place_new old next tail) ∙ lines _ ∙ rw (here) refl

  last_place : ras_slot (ras_last old) + 1 ≡ old.ras_top
  last_place = let depth = w.depth in omega arith

  put_back :
      (r : ℕ → RasEntry)
      → ((y : ℕ) → y < next.ras_top → r y ≡ next.ras y)
      → (y : ℕ) → y < old.ras_top
      → put (ras_slot (ras_last old)) (old.ras (ras_last old)) r y ≡ old.ras y
  put_back r agree y l = elim (Bool-cases (y == ras_slot (ras_last old))) [
    | inl e ↦ let same : ras_last old ≡ y = ground arith in rw (e) (ap old.ras same)
    | inr e ↦
        let other : y ≢ ras_last old = ground arith in
        rw (e) (agree y (ground (arith, last_place)) ∙ kept y (ground (arith, last_place)) other)
  ]

  logged-Rewinds : Rewinds saved next (suc d)
  logged-Rewinds = record {
    short = room;
    tail = omega (arith, tail, w.tail);
    depth = omega (arith, w.depth);
    back = λ r agree x l.
        ap (λ f. f x) (undo_first next d 15 r)
        ∙ ap
            (λ line.
              undo_loop next (suc d) 15 1
                (put (ras_slot line.index) (record { ret_pc = line.addr; times = line.times }) r) x)
            newest_line
        ∙ undo_agree next old 1 d (suc d) 15 0 1 _ _ (omega arith) (omega arith) older_line
            (λ y. refl) x
        ∙ ap (λ f. f x) (sym (undo_more old d 15 0 _ (omega arith)))
        ∙ w.back _ (put_back r agree) x l;
  }

-- A change above the entries that the stack had, with the journal as it was.
unlogged-Rewinds :
    (saved old next : TargetPred) (d : ℕ)
    → Rewinds saved old d
    → old.ras_top ≤ next.ras_top
    → next.ras_top ≤ 8
    → next.align_tail ≡ old.align_tail
    → ((x : ℕ) → next.align_queue x ≡ old.align_queue x)
    → ((y : ℕ) → y < old.ras_top → next.ras y ≡ old.ras y)
    → Rewinds saved next d
unlogged-Rewinds saved old next d w upper depth tail lines kept = record {
  short = w.short;
  tail = tail ∙ w.tail;
  depth = depth;
  back = λ r agree x l.
      undo_agree next old 0 d d 16 0 0 r r (omega arith) (omega arith)
        (λ j jl.
          let whole : j + 0 ≡ j = omega arith in
          ap (λ i. next.align_queue (read_place next i)) whole
          ∙ lines _
          ∙ ap old.align_queue (ap (λ i. low_bits 4 (u8 (i + 2 ^ 8 - 1 + 2 ^ 8 - j))) tail))
        (λ y. refl) x
      ∙ w.back r (λ y yl. agree y (omega arith) ∙ kept y yl) x l;
}
