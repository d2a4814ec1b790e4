-- ===== src/Imem/Lines.antt =====
-- The requests of the instruction memory of src/IMEM/IMEM.cpp: those that still count lie in the
-- window of the queue, and those that are done hold their line.
use rv32im_simulator.Prelude.{
  ℕ, zero, suc, ◌+◌, ◌-◌, ◌%◌, ◌^◌, ◌<◌, ◌≤◌, ◌≡◌, ◌≢◌, ◌⊎◌, inl, inr, refl, sym, ap, true, false,
  ◌==◌, ==_iff, Bool-cases, List, [], ◌∷◌, length, set, get_or-set_self, get_or-set_ne, arith,
}
use rv32im_simulator.Memory.{Memory}
use rv32im_simulator.Imem.{
  Imem, ImemRequest, imem_cap, zero_request, request_at, new_request, line_bytes, is_counting,
  count_down, count_all,
}

-- A request is for an aligned line, and when it has counted to 0 its bytes are that line.
abbrev IsFilled : Memory → ImemRequest → Type 0
IsFilled mem request =
    request.valid ≡ true
    → (request.line_addr % 16 ≡ 0)
      × (request.line_addr < 2 ^ 32)
      × (request.remain_cycle ≡ 0 → request.bytes ≡ line_bytes mem request.line_addr 0 16)

pub record Sound (mem : Memory) (imem : Imem) : Type 0 where
  pub memory : imem.mem ≡ mem
  pub storage : length imem.reqs ≡ imem_cap
  pub head_in : imem.head < imem_cap
  pub count_in : imem.count ≤ imem_cap
  pub counting :
      (i : ℕ)
      → i < imem_cap
      → is_counting (request_at imem.reqs i) ≡ true
      → (i + imem_cap - imem.head) % imem_cap < imem.count
  pub filled : (i : ℕ) → i < imem_cap → IsFilled mem (request_at imem.reqs i)

-- What the release and the claim may do to a request.
abbrev pub MayFollow : Memory → ImemRequest → ImemRequest → Type 0
MayFollow mem old next =
    (next ≡ old) ⊎ ((next.valid ≡ false) ⊎ ((is_counting old ≡ false) × IsFilled mem next))

pub IsFilled-new :
    (mem : Memory) (addr : ℕ) → addr % 16 ≡ 0 → addr < 2 ^ 32 → IsFilled mem (new_request addr)
IsFilled-new mem addr a b h = (a, b, λ e. absurd (omega arith))

pub count_down-IsFilled :
    (mem : Memory) (old next : ImemRequest)
    → IsFilled mem old
    → MayFollow mem old next
    → IsFilled mem (count_down mem old next)
unfolding count_down
count_down-IsFilled mem old next f (inl e) = elim (Bool-cases (is_counting old)) [
  | inl c ↦ elim (Bool-cases (old.remain_cycle - 1 == 0)) [
    | inl z ↦ rw (e, c, z) (λ v. ((f v).0, (f v).1, λ h. refl))
    | inr z ↦ rw (e, c, z) (λ v. ((f v).0, (f v).1, λ h. absurd (ground arith)))
  ]
  | inr c ↦ rw (e, c) f
]
count_down-IsFilled mem old next f (inr (inl e)) = λ v. ground arith
count_down-IsFilled mem old next f (inr (inr (c, g))) = rw c g

-- A request that still counts after a round did so before.
pub count_down-counting :
    (mem : Memory) (old next : ImemRequest)
    → MayFollow mem old next
    → is_counting (count_down mem old next) ≡ true
    → is_counting next ≡ true
unfolding count_down
count_down-counting mem old next (inl e) h = rw e (ground arith)
count_down-counting mem old next (inr (inl e)) h = ground arith
count_down-counting mem old next (inr (inr (c, g))) h = ground arith

pub request_at-count_all :
    (mem : Memory) (olds nexts : List ImemRequest) (i : ℕ)
    → length olds ≡ length nexts
    → i < length olds
    → request_at (count_all mem olds nexts) i
      ≡ count_down mem (request_at olds i) (request_at nexts i)
unfolding count_all
request_at-count_all mem [] nexts i e l = absurd (omega arith)
request_at-count_all mem (o ∷ os) [] i e l = absurd (omega arith)
request_at-count_all mem (o ∷ os) (n ∷ ns) zero e l = refl
request_at-count_all mem (o ∷ os) (n ∷ ns) (suc i) e l =
    request_at-count_all mem os ns i (omega arith) (omega arith)

pub length-count_all :
    (mem : Memory) (olds nexts : List ImemRequest)
    → length (count_all mem olds nexts) ≡ length nexts
unfolding count_all
length-count_all mem [] nexts = refl
length-count_all mem (o ∷ os) [] = refl
length-count_all mem (o ∷ os) (n ∷ ns) = ap suc (length-count_all mem os ns)

-- A request after a write to the queue: the one written, or the one that was there.
pub request_at-set :
    (reqs : List ImemRequest) (index : ℕ) (request : ImemRequest) (i : ℕ)
    → index < length reqs
    → ((i ≡ index) × (request_at (set reqs index request) i ≡ request))
      ⊎ ((i ≢ index) × (request_at (set reqs index request) i ≡ request_at reqs i))
request_at-set reqs index request i l = elim (Bool-cases (i == index)) [
  | inl e ↦
      let same = (==_iff i index).0 e in
      inl (same, rw same (get_or-set_self reqs index request zero_request l))
  | inr e ↦
      let apart : i ≢ index = ground arith in
      inr (apart, get_or-set_ne reqs index i request zero_request (λ e'. apart (sym e')))
]
