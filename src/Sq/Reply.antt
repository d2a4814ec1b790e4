-- ===== src/Sq/Reply.antt =====
-- `SQ::replyToLoadRequest` of src/SQ/SQ.cpp, on the list of the stores before a load.
use rv32im_simulator.Prelude.{
  ℕ, zero, suc, ◌+◌, ◌%◌, ◌≤◌, ◌<◌, Bool, true, false, not, ◌&&◌, ◌||◌, ◌==◌, Bool-cases,
  if◌then◌else◌, Option, none, some, List, [], ◌∷◌, ◌≡◌, refl, inl, inr, arith, ltb,
}
use rv32im_simulator.Tags.{is_younger}
use rv32im_simulator.Sq.{Sq, SqEntry, sq_cap, entry_at, is_active}
use rv32im_simulator.Sq.Forward.{Search, no_search, reply_step, reply_loop, reply_to_load_request}

-- The stores that a load looks at, oldest first: the active ones up to the first that is neither
-- committed nor before the load.
abbrev pub visible : Sq → ℕ → ℕ → ℕ → List SqEntry
visible q load_tag zero k = []
visible q load_tag (suc rounds) k =
    let index = (q.head + k) % sq_cap in
    let entry = entry_at q index in
    let rest = visible q load_tag rounds (suc k) in
    if not (is_active index q)
    then rest
    else if not entry.is_committed && is_younger entry.rob_tag load_tag
    then []
    else entry ∷ rest

-- A store matters to a load if its address is the load's, or not known yet.
abbrev pub matters : ℕ → SqEntry → Bool
matters addr entry = not entry.is_address_ready || (entry.address == addr)

-- The last store that matters, from a candidate on.
abbrev pub last_from : ℕ → Option SqEntry → List SqEntry → Option SqEntry
last_from addr best [] = best
last_from addr best (entry ∷ rest) =
    last_from addr (if matters addr entry then some entry else best) rest

-- What the loop's variables say about the last store that matters so far.
abbrev Found : Search → ℕ → Option SqEntry → Type 0
Found s k none = (s.youngest_same ≡ 0) × (s.youngest_unknown ≡ 0)
Found s k (some entry) =
    (s.youngest_same ≤ k)
    × (s.youngest_unknown ≤ k)
    × (entry.is_address_ready ≡ false → s.youngest_same < s.youngest_unknown)
    × (entry.is_address_ready ≡ true
        → (s.youngest_unknown < s.youngest_same)
          × (s.found_same ≡ true)
          × (s.same_value_ready ≡ entry.is_value_ready)
          × (entry.is_value_ready ≡ true → s.forward_value ≡ entry.value))

-- The answer that the last store that matters gives.
abbrev pub Answers : Option SqEntry → Bool → ℕ → Type 0
Answers none valid value = valid ≡ false
Answers (some entry) valid value =
    (valid ≡ (entry.is_address_ready && entry.is_value_ready))
    × (valid ≡ true → value ≡ entry.value)

Found-bounds :
    (s : Search) (k : ℕ) (best : Option SqEntry)
    → Found s k best
    → (s.youngest_same ≤ k) × (s.youngest_unknown ≤ k)
Found-bounds s k none f = (omega (arith, f.0), omega (arith, f.1))
Found-bounds s k (some e) f = (f.0, f.1)

Found-later : (s : Search) (k : ℕ) (best : Option SqEntry) → Found s k best → Found s (suc k) best
Found-later s k none f = f
Found-later s k (some e) f = (omega (arith, f.0), omega (arith, f.1), f.2, f.3)

Found-Answers :
    (s : Search) (k : ℕ) (best : Option SqEntry)
    → Found s k best
    → Answers best
        (s.same_value_ready && s.found_same && ltb s.youngest_unknown s.youngest_same)
        s.forward_value
Found-Answers s k none f = ground (arith, f.0, f.1)
Found-Answers s k (some e) f = elim (Bool-cases e.is_address_ready) [
  | inl a ↦ let g = f.3 a in (ground (arith, g.0, g.1, g.2), λ v. g.3 (ground (arith, g.2)))
  | inr a ↦ let g = f.2 a in (ground arith, λ v. absurd (ground arith))
]

module _ (q : Sq) (addr load_tag : ℕ) where
  -- Once a younger store was reached, nothing changes.
  loop_over :
      (rounds k : ℕ) (s : Search)
      → reply_loop q addr load_tag rounds k (record s { reached_younger = true })
        ≡ record s { reached_younger = true }
  unfolding reply_loop reply_step
  loop_over zero k s = refl
  loop_over (suc rounds) k s = elim (Bool-cases (is_active ((q.head + k) % sq_cap) q)) [
    | inl a ↦ rw a (loop_over rounds (suc k) s)
    | inr a ↦ rw a (loop_over rounds (suc k) s)
  ]

  module _ (k : ℕ) (s : Search) where
    abbrev place : ℕ
    place = (q.head + k) % sq_cap

    abbrev store : SqEntry
    store = entry_at q place

    abbrev stops : Bool
    stops = not store.is_committed && is_younger store.rob_tag load_tag

    step_inactive : is_active place q ≡ false → reply_step q addr load_tag k s ≡ s
    unfolding reply_step
    step_inactive a = rw a refl

    step_stops :
        is_active place q ≡ true
        → stops ≡ true
        → reply_step q addr load_tag k s ≡ record s { reached_younger = true }
    unfolding reply_step
    step_stops a y = ground arith

    step_unknown :
        is_active place q ≡ true
        → s.reached_younger ≡ false
        → stops ≡ false
        → store.is_address_ready ≡ false
        → reply_step q addr load_tag k s ≡ record s { youngest_unknown = suc k }
    unfolding reply_step
    step_unknown a r y n = ground arith

    step_same :
        is_active place q ≡ true
        → s.reached_younger ≡ false
        → stops ≡ false
        → store.is_address_ready ≡ true
        → (store.address == addr) ≡ true
        → reply_step q addr load_tag k s ≡ record s {
          youngest_same = suc k;
          found_same = true;
          same_value_ready = store.is_value_ready;
          forward_value = if store.is_value_ready then store.value else s.forward_value;
        }
    unfolding reply_step
    step_same a r y n m = ground arith

    step_other :
        is_active place q ≡ true
        → s.reached_younger ≡ false
        → stops ≡ false
        → store.is_address_ready ≡ true
        → (store.address == addr) ≡ false
        → reply_step q addr load_tag k s ≡ s
    unfolding reply_step
    step_other a r y n m = ground arith

  loop_zero : (k : ℕ) (s : Search) → reply_loop q addr load_tag zero k s ≡ s
  unfolding reply_loop
  loop_zero k s = refl

  loop_suc :
      (rounds k : ℕ) (s t : Search)
      → reply_step q addr load_tag k s ≡ t
      → reply_loop q addr load_tag (suc rounds) k s ≡ reply_loop q addr load_tag rounds (suc k) t
  unfolding reply_loop
  loop_suc rounds k s t e = rw e refl

  -- The list of the stores, one place on.
  visible_on :
      (rounds k : ℕ) (best : Option SqEntry)
      → let e = entry_at q ((q.head + k) % sq_cap) in
        is_active ((q.head + k) % sq_cap) q ≡ true
        → (not e.is_committed && is_younger e.rob_tag load_tag) ≡ false
        → last_from addr best (visible q load_tag (suc rounds) k)
          ≡ last_from addr
              (if matters addr e then some e else best)
              (visible q load_tag rounds (suc k))
  visible_on rounds k best a y = rw (a, y) refl

  loop_Answers :
      (rounds k : ℕ) (s : Search) (best : Option SqEntry)
      → s.reached_younger ≡ false
      → Found s k best
      → let t = reply_loop q addr load_tag rounds k s in
        Answers
          (last_from addr best (visible q load_tag rounds k))
          (t.same_value_ready && t.found_same && ltb t.youngest_unknown t.youngest_same)
          t.forward_value
  loop_Answers zero k s best r f = rw (loop_zero k s) (Found-Answers s k best f)
  loop_Answers (suc rounds) k s best r f =
      let index = (q.head + k) % sq_cap in
      let e = entry_at q index in
      let b = Found-bounds s k best f in
      elim (Bool-cases (is_active index q)) [
        | inr a ↦
            rw (loop_suc rounds k s _ (step_inactive k s a), a)
              (loop_Answers rounds (suc k) s best r (Found-later s k best f))
        | inl a ↦ elim (Bool-cases (not e.is_committed && is_younger e.rob_tag load_tag)) [
          | inl y ↦
              rw (loop_suc rounds k s _ (step_stops k s a y), a, y, loop_over rounds (suc k) s)
                (Found-Answers s k best f)
          | inr y ↦ elim (Bool-cases e.is_address_ready) [
            | inr n ↦
                rw
                  (
                    loop_suc rounds k s _ (step_unknown k s a r y n),
                    visible_on rounds k best a y,
                    n,
                  )
                  (loop_Answers rounds (suc k) (record s { youngest_unknown = suc k }) (some e) r
                    (
                      omega (arith, b.0),
                      omega arith,
                      λ _. omega (arith, b.0),
                      λ h. absurd (ground arith),
                    ))
            | inl n ↦ elim (Bool-cases (e.address == addr)) [
              | inl m ↦
                  rw
                    (
                      loop_suc rounds k s _ (step_same k s a r y n m),
                      visible_on rounds k best a y,
                      n,
                      m,
                    )
                    (loop_Answers rounds (suc k)
                      (record s {
                        youngest_same = suc k;
                        found_same = true;
                        same_value_ready = e.is_value_ready;
                        forward_value = if e.is_value_ready then e.value else s.forward_value;
                      })
                      (some e) r
                      (
                        omega arith,
                        omega (arith, b.1),
                        λ h. absurd (ground arith),
                        λ _. (omega (arith, b.1), refl, refl, λ v. rw v refl),
                      ))
              | inr m ↦
                  rw
                    (
                      loop_suc rounds k s _ (step_other k s a r y n m),
                      visible_on rounds k best a y,
                      n,
                      m,
                    )
                    (loop_Answers rounds (suc k) s best r (Found-later s k best f))
            ]
          ]
        ]
      ]

  -- The store queue's reply to a load is decided by the last store before the load whose address
  -- is the load's or not known yet: the reply is valid exactly when that store exists and its
  -- address and value are known, and it is then that store's whole value.
  pub reply_to_load_request-Answers :
      let reply = reply_to_load_request q addr load_tag in
      Answers (last_from addr none (visible q load_tag sq_cap 0)) reply.valid reply.value
  unfolding reply_to_load_request
  reply_to_load_request-Answers = loop_Answers sq_cap 0 no_search none refl (refl, refl)
