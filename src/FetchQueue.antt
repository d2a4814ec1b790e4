-- ===== src/FetchQueue.antt =====
-- The fetch queue, `InstructBuffer` of src/include/InstructBuffer.hpp and
-- src/InstructBuffer/InstructBuffer.cpp.
pub mod Stream
use rv32im_simulator.Prelude.{
  ℕ, Bool, true, false, not, ◌&&◌, if◌then◌else◌, Option, none, some, get_or, replicate,
}
use rv32im_simulator.Types.{SquashInfo}
use rv32im_simulator.Ring
use rv32im_simulator.Ring.{Ring}

-- `InstructBufferEntry`.
pub record FetchEntry : Type 0 where
  pub raw : ℕ
  pub pc : ℕ
  pub predicted_pc : ℕ
  pub ckpt_id : ℕ

-- `lastPush`.
pub record LastPush : Type 0 where
  pub valid : Bool
  pub raw_inst : ℕ
  pub pc : ℕ

pub record FetchQueue : Type 0 where
  pub ring : Ring FetchEntry
  pub push_cache : LastPush

abbrev pub fq_cap : ℕ
fq_cap = 4

abbrev pub zero_entry : FetchEntry
zero_entry = record { raw = 0; pc = 0; predicted_pc = 0; ckpt_id = 0 }

abbrev no_push : LastPush
no_push = record { valid = false; raw_inst = 0; pc = 0 }

-- The constructor and `clear`: all bytes zero.
abbrev pub cleared : FetchQueue
cleared = record {
  ring = record { slots = replicate fq_cap zero_entry; head = 0; tail = 0 };
  push_cache = no_push;
}

unfoldable pub is_full : FetchQueue → Bool
is_full q = Ring.is_full fq_cap q.ring

unfoldable pub is_empty : FetchQueue → Bool
is_empty q = Ring.is_empty q.ring

unfoldable pub push : FetchEntry → FetchQueue → FetchQueue
push entry q = record q { ring = Ring.push fq_cap entry q.ring }

unfoldable pub pop : FetchQueue → FetchQueue
pop q = record q { ring = Ring.pop fq_cap q.ring }

-- The entry that `headRaw`, `headpc`, `headPredictedPC` and `headCkptId` read one field of each;
-- `none` is the exception that they throw on an empty queue.
unfoldable pub head_entry : FetchQueue → Option FetchEntry
unfolding is_empty
head_entry q = if is_empty q then none else some (get_or q.ring.slots q.ring.head zero_entry)

-- `struct FQInput`: the instruction cache enters by the entry that it returns, if one is ready.
pub record FetchInput : Type 0 where
  pub squash : SquashInfo
  pub returned : Option FetchEntry
  pub decode_is_full : Bool
  pub halt_fetched : Bool

-- The part of `InstructBuffer::tick` that takes the returned instruction.
unfoldable pub receive : FetchInput → FetchQueue → FetchQueue
unfolding push
receive input old =
    let idle = record old { push_cache = no_push } in
    elim input.returned [
      | none ↦ idle
      | some entry ↦
          if not input.halt_fetched && not (is_full old)
          then push entry (record old {
            push_cache = record { valid = true; raw_inst = entry.raw; pc = entry.pc };
          })
          else idle
    ]

-- `InstructBuffer::tick`; the flags are read from the state before the tick.
unfoldable pub tick : FetchInput → FetchQueue → FetchQueue
unfolding receive pop
tick input old =
    let next = receive input old in
    if input.squash.need_squash
    then cleared
    else if not (is_empty old) && not input.decode_is_full
    then pop next
    else next
