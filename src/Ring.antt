-- ===== src/Ring.antt =====
-- The ring buffers of the front end and of the memory queues: a fixed array between `head` and
-- `tail`, where one slot always stays free. The capacity is a power of two in the source, which masks
-- an index by `cap - 1`; here the index is taken modulo `cap`.
pub mod Contents
pub mod Stream
use rv32im_simulator.Prelude.{
  ℕ, ◌+◌, ◌-◌, ◌%◌, Bool, false, ◌==◌, ltb, if◌then◌else◌, List, get_or, set,
}

pub record Ring {ℓ} (A : Type ℓ) : Type ℓ where
  pub slots : List A
  pub head : ℕ
  pub tail : ℕ

module _ {ℓ} {A : Type ℓ} where
  unfoldable pub is_empty : Ring A → Bool
  is_empty q = q.head == q.tail

module _ {ℓ} (cap : ℕ) {A : Type ℓ} where
  unfoldable pub is_full : Ring A → Bool
  is_full q = (q.tail + 1) % cap == q.head

  -- `push` of the source checks nothing: on a full ring it would make the ring look empty.
  unfoldable pub push : A → Ring A → Ring A
  push x q = record q { slots = set q.slots q.tail x; tail = (q.tail + 1) % cap }

  unfoldable pub pop : Ring A → Ring A
  pop q = record q { head = (q.head + 1) % cap }

  -- `isActive`: the index lies between head and tail.
  unfoldable pub is_active : ℕ → Ring A → Bool
  is_active index q =
      if q.head == q.tail
      then false
      else ltb ((index + cap - q.head) % cap) ((q.tail + cap - q.head) % cap)

  -- The number of entries.
  unfoldable pub size : Ring A → ℕ
  size q = (q.tail + cap - q.head) % cap
