-- ===== src/Arbiter/Flush/Receive.antt =====
-- `FlushArbiter::receive` of src/DynamicArbiter/DynamicArbiter.cpp: its loops put a request among those held.
use rv32im_simulator.Prelude.{
  ℕ, ◌<◌, Bool, true, false, Bool-cases, some, [], ◌∷◌, ◌≡◌, refl, inl, inr, length, arith,
}
use rv32im_simulator.Types.{SquashInfo}
use rv32im_simulator.Tags.{is_younger}
use rv32im_simulator.Arbiter.Flush.{
  FlushArbiter, FlushRequest, flusharbiter_cap, compact_loop, scan_loop, shift_loop, insert,
  receive,
}
use rv32im_simulator.Arbiter.Flush.Order.{held, place, InFlight, Ascending, place-Ascending}

abbrev on : SquashInfo → FlushRequest
on x = record { request_args = x; valid = true }

-- A free place with what it held before.
abbrev off : SquashInfo → FlushRequest
off x = record { request_args = x; valid = false }

-- The insertion into an array that holds none, one, two or three requests at its front.
insert_none :
    (request a b c d : SquashInfo)
    → held (insert request 0 (off a ∷ off b ∷ off c ∷ off d ∷ [])) ≡ place request []
unfolding held place insert scan_loop shift_loop
insert_none request a b c d = refl

insert_one :
    (request a b c d : SquashInfo)
    → held (insert request 1 (on a ∷ off b ∷ off c ∷ off d ∷ [])) ≡ place request (a ∷ [])
unfolding held place insert scan_loop shift_loop
insert_one request a b c d = elim (Bool-cases (is_younger request.squash_tag a.squash_tag)) [
  | inl e ↦ rw e refl
  | inr e ↦ rw e refl
]

insert_two :
    (request a b c d : SquashInfo)
    → held (insert request 2 (on a ∷ on b ∷ off c ∷ off d ∷ [])) ≡ place request (a ∷ b ∷ [])
unfolding held place insert scan_loop shift_loop
insert_two request a b c d = elim (Bool-cases (is_younger request.squash_tag a.squash_tag)) [
  | inr e ↦ rw e refl
  | inl e ↦ elim (Bool-cases (is_younger request.squash_tag b.squash_tag)) [
    | inl f ↦ rw (e, f) refl
    | inr f ↦ rw (e, f) refl
  ]
]

insert_three :
    (request a b c d : SquashInfo)
    → held (insert request 3 (on a ∷ on b ∷ on c ∷ off d ∷ [])) ≡ place request (a ∷ b ∷ c ∷ [])
unfolding held place insert scan_loop shift_loop
insert_three request a b c d = elim (Bool-cases (is_younger request.squash_tag a.squash_tag)) [
  | inr e ↦ rw e refl
  | inl e ↦ elim (Bool-cases (is_younger request.squash_tag b.squash_tag)) [
    | inr f ↦ rw (e, f) refl
    | inl f ↦ elim (Bool-cases (is_younger request.squash_tag c.squash_tag)) [
      | inl g ↦ rw (e, f, g) refl
      | inr g ↦ rw (e, f, g) refl
    ]
  ]
]

abbrev four :
    Bool → Bool → Bool → Bool → SquashInfo → SquashInfo → SquashInfo → SquashInfo → FlushArbiter
four v w x y a b c d =
    record { request_args = a; valid = v }
    ∷ record { request_args = b; valid = w }
    ∷ record { request_args = c; valid = x }
    ∷ record { request_args = d; valid = y }
    ∷ []

-- What the loops leave, by the places that are free.
Placed : SquashInfo → FlushArbiter → Type 0
Placed request arbiter =
    (next : FlushArbiter) × (receive request arbiter ≡ some next)
    × (held next ≡ place request (held arbiter))

by_places :
    (request : SquashInfo) (v w x y : Bool) (a b c d : SquashInfo)
    → length (held (four v w x y a b c d)) < 4
    → Placed request (four v w x y a b c d)
unfolding Placed receive compact_loop held
by_places request true true true true a b c d l = absurd (omega arith)
by_places request true true true false a b c d l = (_, refl, insert_three request a b c d)
by_places request true true false true a b c d l = (_, refl, insert_three request a b d d)
by_places request true true false false a b c d l = (_, refl, insert_two request a b c d)
by_places request true false true true a b c d l = (_, refl, insert_three request a c d d)
by_places request true false true false a b c d l = (_, refl, insert_two request a c c d)
by_places request true false false true a b c d l = (_, refl, insert_two request a d c d)
by_places request true false false false a b c d l = (_, refl, insert_one request a b c d)
by_places request false true true true a b c d l = (_, refl, insert_three request b c d d)
by_places request false true true false a b c d l = (_, refl, insert_two request b c c d)
by_places request false true false true a b c d l = (_, refl, insert_two request b d c d)
by_places request false true false false a b c d l = (_, refl, insert_one request b b c d)
by_places request false false true true a b c d l = (_, refl, insert_two request c d c d)
by_places request false false true false a b c d l = (_, refl, insert_one request c b c d)
by_places request false false false true a b c d l = (_, refl, insert_one request d b c d)
by_places request false false false false a b c d l = (_, refl, insert_none request a b c d)

-- When the four places of the arbiter hold fewer than four requests, wherever the free places are,
-- the loops that compact, scan and shift accept a request, and those held afterwards are those
-- held before, in their order, with the new one in front of the first that it is not younger than.
pub held-receive :
    (request : SquashInfo) (arbiter : FlushArbiter)
    → length arbiter ≡ flusharbiter_cap
    → length (held arbiter) < flusharbiter_cap
    → (next : FlushArbiter) × (receive request arbiter ≡ some next)
      × (held next ≡ place request (held arbiter))
unfolding Placed
held-receive request (p ∷ q ∷ r ∷ s ∷ []) l free =
    by_places request p.valid q.valid r.valid s.valid p.request_args q.request_args r.request_args
      s.request_args free
held-receive request [] l free = absurd (omega arith)
held-receive request (p ∷ []) l free = absurd (omega arith)
held-receive request (p ∷ q ∷ []) l free = absurd (omega arith)
held-receive request (p ∷ q ∷ r ∷ []) l free = absurd (omega arith)
held-receive request (p ∷ q ∷ r ∷ s ∷ t ∷ rest) l free = absurd (omega arith)

-- When the four places of the arbiter hold fewer than four requests, all in flight and in the
-- order of age, and a request in flight arrives, the loops accept it and leave the requests held
-- in the order of age.
pub receive-Ascending :
    (base : ℕ) (request : SquashInfo) (arbiter : FlushArbiter)
    → length arbiter ≡ flusharbiter_cap
    → length (held arbiter) < flusharbiter_cap
    → InFlight base request
    → Ascending base (held arbiter)
    → (next : FlushArbiter) × (receive request arbiter ≡ some next) × Ascending base (held next)
receive-Ascending base request arbiter l free f a =
    let received = held-receive request arbiter l free in
    (received.0, received.1, rw received.2 (place-Ascending base request (held arbiter) f a))
