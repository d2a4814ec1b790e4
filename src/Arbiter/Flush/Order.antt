-- ===== src/Arbiter/Flush/Order.antt =====
-- The squash requests that `FlushArbiter` of src/DynamicArbiter/DynamicArbiter.cpp holds, and their ages.
use rv32im_simulator.Prelude.{
  ℕ, ◌≤◌, Bool, true, false, ◌&&◌, Bool-cases, if◌then◌else◌, List, [], ◌∷◌, ◌≡◌, refl, inl, inr,
  arith,
}
use rv32im_simulator.Types.{SquashInfo}
use rv32im_simulator.Tags.{is_older, is_younger}
use rv32im_simulator.Tags.Order.{age, InWindow, is_older-age}
use rv32im_simulator.Buffer.Entries.{keep}
use rv32im_simulator.Buffer.Age.{All}
use rv32im_simulator.Arbiter.Flush.{FlushArbiter, no_squash, arbit_loop, arbit_result, clear}

-- The requests that are held, in the order of the array.
unfoldable pub held : FlushArbiter → List SquashInfo
held [] = []
held (request ∷ rest) = if request.valid then request.request_args ∷ held rest else held rest

-- A request goes in front of the first one that is not older than it.
unfoldable pub place : SquashInfo → List SquashInfo → List SquashInfo
place request [] = request ∷ []
place request (x ∷ xs) =
    if is_younger request.squash_tag x.squash_tag then x ∷ place request xs else request ∷ x ∷ xs

-- A squash drops exactly the requests that are not older than its tag, and keeps the others in
-- order.
pub held-clear :
    (tag : ℕ) (arbiter : FlushArbiter)
    → held (clear tag arbiter) ≡ keep (λ r. is_older r.squash_tag tag) (held arbiter)
unfolding held clear keep
held-clear tag [] = refl
held-clear tag (request ∷ rest) = ground (arith, held-clear tag rest)

module _ (base : ℕ) where
  abbrev request_age : SquashInfo → ℕ
  request_age r = age base r.squash_tag

  abbrev pub InFlight : SquashInfo → Type 0
  InFlight r = InWindow base r.squash_tag

  -- Every request is in flight, and none is older than one before it.
  abbrev pub Ascending : List SquashInfo → Type 0
  Ascending [] = Unit
  Ascending (x ∷ xs) = InFlight x × All (λ y. request_age x ≤ request_age y) xs × Ascending xs

  All-place :
      (z request : SquashInfo) (xs : List SquashInfo)
      → request_age z ≤ request_age request
      → All (λ y. request_age z ≤ request_age y) xs
      → All (λ y. request_age z ≤ request_age y) (place request xs)
  unfolding place
  All-place z request [] h all = (h, tt)
  All-place z request (x ∷ xs) h all =
      elim (Bool-cases (is_younger request.squash_tag x.squash_tag)) [
        | inl b ↦ rw b (all.0, All-place z request xs h all.1)
        | inr b ↦ rw b (h, all)
      ]

  All-from :
      (z x : SquashInfo) (xs : List SquashInfo)
      → request_age z ≤ request_age x
      → All (λ y. request_age x ≤ request_age y) xs
      → All (λ y. request_age z ≤ request_age y) xs
  All-from z x [] h all = tt
  All-from z x (y ∷ ys) h all = (omega (arith, all.0), All-from z x ys h all.1)

  -- A request in flight that is placed among requests in flight and in order leaves them in order.
  pub place-Ascending :
      (request : SquashInfo) (xs : List SquashInfo)
      → InFlight request
      → Ascending xs
      → Ascending (place request xs)
  unfolding place
  place-Ascending request [] f a = (f, tt, tt)
  place-Ascending request (x ∷ xs) f a =
      elim (Bool-cases (is_younger request.squash_tag x.squash_tag)) [
        | inl b ↦ rw b (
          a.0,
          All-place x request xs
              (ground (arith, is_older-age base x.squash_tag request.squash_tag a.0 f)) a.1,
          place-Ascending request xs f a.2,
        )
        | inr b ↦
            let before : request_age request ≤ request_age x =
              ground (arith, is_older-age base x.squash_tag request.squash_tag a.0 f) in
            rw b (f, (before, All-from request x xs before a.1), a)
      ]

  -- What the arbiter grants when requests are held in order: the first.
  abbrev pub first : List SquashInfo → SquashInfo
  first [] = no_squash
  first (x ∷ xs) = x

  keeps_step :
      (result args : SquashInfo) (valid : Bool) (rest : FlushArbiter)
      → InFlight result
      → Ascending (if valid then args ∷ held rest else held rest)
      → All
          (λ y. request_age result ≤ request_age y)
          (if valid then args ∷ held rest else held rest)
      → (Ascending (held rest)
          → All (λ y. request_age result ≤ request_age y) (held rest)
          → arbit_loop result true rest ≡ result)
      → arbit_loop
          (if valid && is_older args.squash_tag result.squash_tag then args else result)
          true
          rest
        ≡ result
  keeps_step result args true rest f a all ih =
      let stays : is_older args.squash_tag result.squash_tag ≡ false =
        ground (arith, is_older-age base args.squash_tag result.squash_tag a.0 f, all.0) in
      rw stays (ih a.2 all.1)
  keeps_step result args false rest f a all ih = ih a all

  loop_keeps :
      (result : SquashInfo) (arbiter : FlushArbiter)
      → InFlight result
      → Ascending (held arbiter)
      → All (λ y. request_age result ≤ request_age y) (held arbiter)
      → arbit_loop result true arbiter ≡ result
  unfolding arbit_loop held
  loop_keeps result [] f a all = refl
  loop_keeps result (request ∷ rest) f a all =
      keeps_step result request.request_args request.valid rest f a all (loop_keeps result rest f)

  first_step :
      (args : SquashInfo) (valid : Bool) (rest : FlushArbiter)
      → Ascending (if valid then args ∷ held rest else held rest)
      → (Ascending (held rest) → arbit_loop no_squash false rest ≡ first (held rest))
      → arbit_loop (if valid && true then args else no_squash) (valid && true) rest
        ≡ first (if valid then args ∷ held rest else held rest)
  first_step args true rest a ih = loop_keeps args rest a.0 a.2 a.1
  first_step args false rest a ih = ih a

  -- When the held squash requests are in flight and in the order of age, the arbiter grants the
  -- first of them, and no request when none is held.
  pub arbit_result-first :
      (arbiter : FlushArbiter)
      → Ascending (held arbiter)
      → arbit_result arbiter ≡ first (held arbiter)
  unfolding arbit_result held
  arbit_result-first [] a = refl
  arbit_result-first (request ∷ rest) a =
      first_step request.request_args request.valid rest a (arbit_result-first rest)
