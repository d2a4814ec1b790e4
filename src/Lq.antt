-- ===== src/Lq.antt =====
-- The load queue of src/include/LQ.hpp and src/LQ/LQ.cpp: its entries, their accessors and its
-- searches. `Lq.Tick` has the clocked part.
pub mod Tick
pub mod Detect
use rv32im_simulator.Prelude.{
  ℕ, zero, suc, ◌+◌, ◌%◌, Bool, true, false, not, ◌&&◌, ◌||◌, ◌==◌, if◌then◌else◌, Option, none,
  some, get_or, set, replicate,
}
use rv32im_simulator.Types.{ValueState, not_ready, fetching, ready}
use rv32im_simulator.Tags.{is_older}
use rv32im_simulator.Ring
use rv32im_simulator.Ring.{Ring}
use rv32im_simulator.Sq.Forward.{StoreNotify}

pub record LqEntry : Type 0 where
  pub rob_tag : ℕ
  pub address : ℕ
  pub value : ℕ
  pub n_bytes : ℕ
  pub is_address_ready : Bool
  pub value_state : ValueState
  pub is_unsigned : Bool
  pub is_cdb_broadcast : Bool

abbrev pub lq_cap : ℕ
lq_cap = 8

abbrev pub Lq : Type 0
Lq = Ring LqEntry

abbrev pub zero_load : LqEntry
zero_load = record {
  rob_tag = 0;
  address = 0;
  value = 0;
  n_bytes = 0;
  is_address_ready = false;
  value_state = not_ready;
  is_unsigned = false;
  is_cdb_broadcast = false;
}

abbrev pub initial : Lq
initial = record { slots = replicate lq_cap zero_load; head = 0; tail = 0 }

-- `LQqueue[index]`.
abbrev pub entry_at : Lq → ℕ → LqEntry
entry_at q index = get_or q.slots index zero_load

abbrev pub update_at : ℕ → LqEntry → Lq → Lq
update_at index entry q = record q { slots = set q.slots index entry }

abbrev is_fetching : ValueState → Bool
is_fetching fetching = true
is_fetching _ = false

abbrev is_ready_state : ValueState → Bool
is_ready_state ready = true
is_ready_state _ = false

abbrev is_not_ready : ValueState → Bool
is_not_ready not_ready = true
is_not_ready _ = false

unfoldable pub is_empty : Lq → Bool
is_empty q = Ring.is_empty q

unfoldable pub is_full : Lq → Bool
is_full q = Ring.is_full lq_cap q

unfoldable pub is_active : ℕ → Lq → Bool
is_active index q = Ring.is_active lq_cap index q

unfoldable pub pop : Lq → Lq
pop q = Ring.pop lq_cap q

unfoldable pub push_load : ℕ → ℕ → Bool → Lq → Lq
push_load tag n_bytes unsigned q =
    Ring.push lq_cap (record zero_load { rob_tag = tag; n_bytes = n_bytes; is_unsigned = unsigned })
      q

unfoldable pub flush : ℕ → Lq → Lq
flush tail_snapshot q = record q { tail = tail_snapshot }

unfoldable pub write_address : ℕ → ℕ → Lq → Lq
write_address address index q =
    let entry = entry_at q index in
    update_at index (record entry { address = address; is_address_ready = true }) q

unfoldable pub write_value : ℕ → ℕ → Lq → Lq
write_value value index q =
    let entry = entry_at q index in
    update_at index (record entry { value = value; value_state = ready; is_cdb_broadcast = false })
      q

unfoldable pub write_value_if_fetching : ℕ → ℕ → ℕ → Lq → Lq
unfolding write_value
write_value_if_fetching tag index value q =
    let entry = entry_at q index in
    if (entry.rob_tag == tag) && is_fetching entry.value_state then write_value value index q else q

unfoldable pub set_value_state : ℕ → ValueState → Lq → Lq
set_value_state index state q =
    let entry = entry_at q index in update_at index (record entry { value_state = state }) q

unfoldable pub set_cdb_broadcast : ℕ → Lq → Lq
set_cdb_broadcast index q =
    let entry = entry_at q index in update_at index (record entry { is_cdb_broadcast = true }) q

-- `none` is the exception "Address is not ready!".
unfoldable pub get_address : Lq → ℕ → Option ℕ
get_address q index =
    let entry = entry_at q index in if entry.is_address_ready then some entry.address else none

-- `none` is the exception "Value is not ready!".
unfoldable pub get_value : Lq → ℕ → Option ℕ
get_value q index =
    let entry = entry_at q index in
    if is_ready_state entry.value_state then some entry.value else none

unfoldable pub head_rob_tag : Lq → ℕ
head_rob_tag q = (entry_at q q.head).rob_tag

unfoldable pub get_tail_snapshot : Lq → ℕ
get_tail_snapshot q = (q.tail + 1) % lq_cap

-- Both searches give the first active entry from the head on that passes a test, and -1, here
-- `none`, where there is none.
unfoldable pub first_active : (LqEntry → Bool) → Lq → ℕ → ℕ → Option ℕ
first_active test q zero k = none
first_active test q (suc rounds) k =
    let rest = first_active test q rounds (suc k) in
    let cur = (q.head + k) % lq_cap in
    if is_active cur q && test (entry_at q cur) then some cur else rest

abbrev pub waits_for_memory : LqEntry → Bool
waits_for_memory entry = entry.is_address_ready && is_not_ready entry.value_state

abbrev pub waits_for_bus : LqEntry → Bool
waits_for_bus entry =
    entry.is_address_ready && is_ready_state entry.value_state && not entry.is_cdb_broadcast

unfoldable pub load_detect : Lq → Option ℕ
unfolding first_active
load_detect q = if q.head == q.tail then none else first_active waits_for_memory q lq_cap 0

unfoldable pub cdb_detect : Lq → Option ℕ
unfolding first_active
cdb_detect q = if q.head == q.tail then none else first_active waits_for_bus q lq_cap 0

-- Whether a store's broadcast is for a load: the store is older, and no store between them has the
-- address or may still get it.
unfoldable takes_forward : StoreNotify → LqEntry → Bool
takes_forward notify entry =
    let blocked =
      (notify.found_known_same && is_older notify.known_same_address_oldest_tag entry.rob_tag)
      || (notify.found_unknown && is_older notify.unknown_oldest_tag entry.rob_tag) in
    entry.is_address_ready
    && (entry.address == notify.addr)
    && is_older notify.store_tag entry.rob_tag
    && not blocked

-- The loop of `applyStoreForward`, which breaks at the first inactive entry. Only values change, so
-- the tests may read the queue as the loop leaves it.
unfoldable forward_loop : StoreNotify → ℕ → ℕ → Lq → Lq
unfolding takes_forward
forward_loop notify zero k q = q
forward_loop notify (suc rounds) k q =
    let i = (q.head + k) % lq_cap in
    let written = if takes_forward notify (entry_at q i) then write_value notify.value i q else q in
    let rest = forward_loop notify rounds (suc k) written in if is_active i q then rest else q

unfoldable pub apply_store_forward : StoreNotify → Lq → Lq
unfolding forward_loop
apply_store_forward notify q = forward_loop notify lq_cap 0 q
