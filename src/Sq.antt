-- ===== src/Sq.antt =====
-- The store queue of src/include/SQ.hpp and src/SQ/SQ.cpp: its entries and their accessors.
-- `Sq.Forward` has the searches, `Sq.Tick` the clocked part.
pub mod Forward
pub mod Tick
pub mod Reply
use rv32im_simulator.Prelude.{
  ℕ, ◌+◌, ◌%◌, Bool, true, false, ◌&&◌, if◌then◌else◌, Option, none, some, get_or, set, replicate,
}
use rv32im_simulator.Ring
use rv32im_simulator.Ring.{Ring}

pub record SqEntry : Type 0 where
  pub rob_tag : ℕ
  pub address : ℕ
  pub value : ℕ
  pub n_bytes : ℕ
  pub is_address_ready : Bool
  pub is_value_ready : Bool
  pub is_committed : Bool

abbrev pub sq_cap : ℕ
sq_cap = 8

abbrev pub Sq : Type 0
Sq = Ring SqEntry

-- An entry of zero bytes.
abbrev pub zero_store : SqEntry
zero_store = record {
  rob_tag = 0;
  address = 0;
  value = 0;
  n_bytes = 0;
  is_address_ready = false;
  is_value_ready = false;
  is_committed = false;
}

abbrev pub initial : Sq
initial = record { slots = replicate sq_cap zero_store; head = 0; tail = 0 }

-- `SQqueue[index]`.
abbrev pub entry_at : Sq → ℕ → SqEntry
entry_at q index = get_or q.slots index zero_store

abbrev pub update_at : ℕ → SqEntry → Sq → Sq
update_at index entry q = record q { slots = set q.slots index entry }

unfoldable pub is_empty : Sq → Bool
is_empty q = Ring.is_empty q

unfoldable pub is_full : Sq → Bool
is_full q = Ring.is_full sq_cap q

unfoldable pub is_active : ℕ → Sq → Bool
is_active index q = Ring.is_active sq_cap index q

unfoldable pub pop : Sq → Sq
pop q = Ring.pop sq_cap q

unfoldable pub push_store : ℕ → ℕ → Sq → Sq
push_store tag n_bytes q =
    Ring.push sq_cap (record zero_store { rob_tag = tag; n_bytes = n_bytes }) q

unfoldable pub flush : ℕ → Sq → Sq
flush tail_snapshot q = record q { tail = tail_snapshot }

unfoldable pub write_address : ℕ → ℕ → Sq → Sq
write_address address index q =
    let entry = entry_at q index in
    update_at index (record entry { address = address; is_address_ready = true }) q

unfoldable pub write_value : ℕ → ℕ → Sq → Sq
write_value value index q =
    let entry = entry_at q index in
    update_at index (record entry { value = value; is_value_ready = true }) q

unfoldable pub set_committed : ℕ → Sq → Sq
set_committed index q =
    let entry = entry_at q index in update_at index (record entry { is_committed = true }) q

-- `none` is the exception "Address is not ready!".
unfoldable pub get_address : Sq → ℕ → Option ℕ
get_address q index =
    let entry = entry_at q index in if entry.is_address_ready then some entry.address else none

-- `none` is the exception "Value is not ready!".
unfoldable pub get_value : Sq → ℕ → Option ℕ
get_value q index =
    let entry = entry_at q index in if entry.is_value_ready then some entry.value else none

unfoldable pub head_rob_tag : Sq → ℕ
head_rob_tag q = (entry_at q q.head).rob_tag

unfoldable pub get_tail_snapshot : Sq → ℕ
get_tail_snapshot q = (q.tail + 1) % sq_cap

unfoldable pub is_committed : Sq → ℕ → Bool
unfolding is_active
is_committed q index = is_active index q && (entry_at q index).is_committed

unfoldable pub is_ready_to_commit : Sq → ℕ → Bool
is_ready_to_commit q index =
    (entry_at q index).is_address_ready && (entry_at q index).is_value_ready
