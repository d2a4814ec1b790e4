-- ===== src/Arbiter/Flush.antt =====
-- The queue of squash requests, `FlushArbiter`, and the detection of what must be squashed.
pub mod Order
pub mod Receive
use rv32im_simulator.Prelude.{
  ℕ, zero, suc, ◌+◌, ◌%◌, Bool, true, false, not, ◌&&◌, ◌||◌, ◌==◌, if◌then◌else◌, Option, none,
  some, List, [], ◌∷◌, replicate, get_or, set, ltb, leb, ◌-◌,
}
use rv32im_simulator.Types.{SquashInfo, is_store_mem, ValueState, not_ready}
use rv32im_simulator.Tags.{is_older, is_younger, rob_slot, survives}
use rv32im_simulator.Packet.{ResultBus}
use rv32im_simulator.Bru
use rv32im_simulator.Bru.{Bru}
use rv32im_simulator.Agu
use rv32im_simulator.Agu.{Agu}
use rv32im_simulator.Lq
use rv32im_simulator.Lq.{Lq, LqEntry, lq_cap}
use rv32im_simulator.Rob
use rv32im_simulator.Rob.{Rob}

-- `struct FlushRequest`.
pub record FlushRequest : Type 0 where
  pub request_args : SquashInfo
  pub valid : Bool

abbrev pub flusharbiter_cap : ℕ
flusharbiter_cap = 4

abbrev pub no_squash : SquashInfo
no_squash = record { need_squash = false; squash_tag = 0; squash_pc = 0; ckpt_id = 0 }

abbrev pub no_request : FlushRequest
no_request = record { request_args = no_squash; valid = false }

-- `requests`.
abbrev pub FlushArbiter : Type 0
FlushArbiter = List FlushRequest

abbrev pub initial : FlushArbiter
initial = replicate flusharbiter_cap no_request

-- `requests[index]`.
abbrev pub request_at : FlushArbiter → ℕ → FlushRequest
request_at arbiter index = get_or arbiter index no_request

-- The loop of `receive` that moves the valid requests to the front: `r` is the place that it reads and
-- `w` the one that it writes. A place that was moved keeps its stale bytes.
unfoldable pub compact_loop : ℕ → ℕ → ℕ → FlushArbiter → ℕ × FlushArbiter
compact_loop zero r w arbiter = (w, arbiter)
compact_loop (suc rounds) r w arbiter =
    let request = request_at arbiter r in
    let moved = set (set arbiter w request) r (record request { valid = false }) in
    let skipped = compact_loop rounds (suc r) w arbiter in
    let kept = compact_loop rounds (suc r) (suc w) arbiter in
    let shifted = compact_loop rounds (suc r) (suc w) moved in
    if request.valid then (if not (r == w) then shifted else kept) else skipped

-- The loop that looks for the place of a request among the first `w`.
unfoldable pub scan_loop : SquashInfo → ℕ → FlushArbiter → ℕ → ℕ → ℕ → Bool → ℕ
scan_loop request w arbiter zero i pos scanning = pos
scan_loop request w arbiter (suc rounds) i pos scanning =
    let younger = is_younger request.squash_tag (request_at arbiter i).request_args.squash_tag in
    if not scanning || leb w i
    then scan_loop request w arbiter rounds (suc i) pos scanning
    else if younger
    then scan_loop request w arbiter rounds (suc i) (suc pos) scanning
    else scan_loop request w arbiter rounds (suc i) pos false

-- The loop that moves the requests after `pos` one place on, from place `i` down to place 1.
unfoldable pub shift_loop : ℕ → ℕ → FlushArbiter → FlushArbiter
shift_loop pos zero arbiter = arbiter
shift_loop pos (suc i) arbiter =
    shift_loop pos i
      (if ltb pos (suc i) then set arbiter (suc i) (request_at arbiter i) else arbiter)

-- The end of `receive`, on an array with its `w` requests at the front.
unfoldable pub insert : SquashInfo → ℕ → FlushArbiter → FlushArbiter
unfolding scan_loop shift_loop
insert request w arbiter =
    let pos = scan_loop request w arbiter flusharbiter_cap 0 0 true in
    set (shift_loop pos (flusharbiter_cap - 1) arbiter) pos
      (record { request_args = request; valid = true })

-- `none` is the exception "flush arbiter overload!".
unfoldable pub receive : SquashInfo → FlushArbiter → Option FlushArbiter
unfolding compact_loop insert
receive request arbiter =
    let (w, packed) = compact_loop flusharbiter_cap 0 0 arbiter in
    if w == flusharbiter_cap then none else some (insert request w packed)

-- The loop of `arbitResult` from the best request so far.
unfoldable pub arbit_loop : SquashInfo → Bool → FlushArbiter → SquashInfo
arbit_loop result found [] = result
arbit_loop result found (request ∷ rest) =
    let args = request.request_args in
    let better = request.valid && (not found || is_older args.squash_tag result.squash_tag) in
    arbit_loop (if better then args else result) (found || better) rest

unfoldable pub arbit_result : FlushArbiter → SquashInfo
unfolding arbit_loop
arbit_result arbiter = arbit_loop no_squash false arbiter

unfoldable pub clear : ℕ → FlushArbiter → FlushArbiter
clear tag [] = []
clear tag (request ∷ rest) =
    (if request.valid && not (is_older request.request_args.squash_tag tag)
      then record request { valid = false }
      else request)
    ∷ clear tag rest

-- `struct FlushArbiterInput`.
pub record FlushInput : Type 0 where
  pub bru : Bru
  pub rob : Rob
  pub agu : Agu
  pub lq : Lq
  pub cdb_out : ResultBus
  pub squash : SquashInfo

-- A squash of what follows the instruction with the tag, and the checkpoint of that instruction.
abbrev squash_after : Rob → ℕ → ℕ → SquashInfo
squash_after rob tag pc = record {
  need_squash = true;
  squash_tag = tag;
  squash_pc = pc;
  ckpt_id = (Rob.entry_at rob (rob_slot tag)).ckpt_id;
}

-- A conditional branch that resolved to another target than the predicted one.
unfoldable branch_squash : FlushInput → Option SquashInfo
branch_squash input =
    let tag = Bru.head_rob_tag input.bru in
    let pc = Bru.head_pc_result input.bru in
    if not (Bru.is_empty input.bru)
      && Rob.matches_tag tag input.rob
      && survives input.squash tag
      && not (pc == (Rob.entry_at input.rob (rob_slot tag)).predicted_pc)
    then some (squash_after input.rob tag pc)
    else none

-- An indirect jump on the integer unit's bus that goes elsewhere than predicted.
unfoldable jump_squash : FlushInput → Option SquashInfo
jump_squash input =
    let bus = input.cdb_out in
    let tag = bus.rob_tag in
    if bus.valid
      && Rob.matches_tag tag input.rob
      && survives input.squash tag
      && not (Rob.is_empty input.rob)
      && not (is_older tag input.rob.head)
      && bus.is_control
      && not (bus.value == (Rob.entry_at input.rob (rob_slot tag)).predicted_pc)
    then some (squash_after input.rob tag bus.value)
    else none

abbrev has_started : ValueState → Bool
has_started not_ready = false
has_started _ = true

-- A load that took its value, or asked for it, before an older store to the same address resolved.
unfoldable violates : FlushInput → ℕ → ℕ → ℕ → Bool
violates input store_tag address i =
    let entry = Lq.entry_at input.lq i in
    Lq.is_active i input.lq
    && entry.is_address_ready
    && (entry.address == address)
    && has_started entry.value_state
    && is_younger entry.rob_tag store_tag
    && survives input.squash entry.rob_tag
    && Rob.matches_tag entry.rob_tag input.rob

-- The first of them, in the order of the load queue.
unfoldable first_violation : FlushInput → ℕ → ℕ → ℕ → ℕ → Option ℕ
unfolding violates
first_violation input store_tag address zero k = none
first_violation input store_tag address (suc rounds) k =
    let rest = first_violation input store_tag address rounds (suc k) in
    let i = (input.lq.head + k) % lq_cap in
    if violates input store_tag address i then some i else rest

unfoldable load_squash : FlushInput → Option SquashInfo
unfolding first_violation
load_squash input =
    let store_tag = Agu.head_rob_tag input.agu in
    if not (Agu.is_empty input.agu)
      && is_store_mem (Agu.head_mem_index input.agu)
      && survives input.squash store_tag
    then elim (first_violation input store_tag (Agu.head_value input.agu) lq_cap 0) [
      | none ↦ none
      | some i ↦
          let tag = (Lq.entry_at input.lq i).rob_tag in
          some (squash_after input.rob tag (Rob.entry_at input.rob (rob_slot tag)).pc)
    ]
    else none

unfoldable receive_if : Option SquashInfo → Option FlushArbiter → Option FlushArbiter
receive_if request none = none
receive_if none (some arbiter) = some arbiter
receive_if (some request) (some arbiter) = receive request arbiter

-- `FlushArbiter::tick`.
unfoldable pub tick : FlushInput → FlushArbiter → Option FlushArbiter
unfolding receive_if branch_squash jump_squash load_squash
tick input old =
    let cleared = if input.squash.need_squash then clear input.squash.squash_tag old else old in
    receive_if (load_squash input)
      (receive_if (jump_squash input) (receive_if (branch_squash input) (some cleared)))
