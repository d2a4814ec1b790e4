-- ===== src/Sq/Forward.antt =====
-- The searches of the store queue: what a resolved store broadcasts to the loads, and what a load
-- gets from the stores before it.
use rv32im_simulator.Prelude.{
  ℕ, zero, suc, ◌+◌, ◌-◌, ◌%◌, Bool, true, false, not, ◌&&◌, ◌||◌, ◌==◌, ltb, leb, if◌then◌else◌,
}
use rv32im_simulator.Tags.{is_older, is_younger}
use rv32im_simulator.Sq.{Sq, sq_cap, entry_at, is_active}

-- `struct StoreNotify`.
pub record StoreNotify : Type 0 where
  pub valid : Bool
  pub store_tag : ℕ
  pub addr : ℕ
  pub value : ℕ
  pub found_known_same : Bool
  pub known_same_address_oldest_tag : ℕ
  pub found_unknown : Bool
  pub unknown_oldest_tag : ℕ

abbrev no_notify : StoreNotify
no_notify = record {
  valid = false;
  store_tag = 0;
  addr = 0;
  value = 0;
  found_known_same = false;
  known_same_address_oldest_tag = 0;
  found_unknown = false;
  unknown_oldest_tag = 0;
}

-- `struct StoreResponse`.
pub record StoreResponse : Type 0 where
  pub valid : Bool
  pub value : ℕ

-- One round of the loop of both plans, at the offset `k` from the store at `index`: only younger
-- active stores count, and of either kind the first.
unfoldable plan_step : Sq → ℕ → ℕ → ℕ → StoreNotify → StoreNotify
plan_step q index address k notify =
    let i = (index + k) % sq_cap in
    let entry = entry_at q i in
    if (i == index)
      || not (is_active i q)
      || leb ((q.tail + sq_cap - index) % sq_cap) ((i + sq_cap - index) % sq_cap)
    then notify
    else if (entry.address == address) && entry.is_address_ready && not notify.found_known_same
    then record notify { known_same_address_oldest_tag = entry.rob_tag; found_known_same = true }
    else if not entry.is_address_ready && not notify.found_unknown
    then record notify { unknown_oldest_tag = entry.rob_tag; found_unknown = true }
    else notify

-- `rounds` more rounds, from the offset `k` on.
unfoldable plan_loop : Sq → ℕ → ℕ → ℕ → ℕ → StoreNotify → StoreNotify
unfolding plan_step
plan_loop q index address zero k notify = notify
plan_loop q index address (suc rounds) k notify =
    plan_loop q index address rounds (suc k) (plan_step q index address k notify)

-- What both plans fill in for a store with its address and value.
unfoldable plan : Sq → ℕ → ℕ → ℕ → StoreNotify
unfolding plan_loop
plan q index address value =
    let tag = (entry_at q index).rob_tag in
    plan_loop q index address sq_cap 1 (record {
      valid = true;
      store_tag = tag;
      addr = address;
      value = value;
      found_known_same = false;
      known_same_address_oldest_tag = tag;
      found_unknown = false;
      unknown_oldest_tag = tag;
    })

unfoldable plan_data_forward : Sq → ℕ → ℕ → StoreNotify
unfolding plan
plan_data_forward q index value =
    let entry = entry_at q index in
    if entry.is_address_ready then plan q index entry.address value else no_notify

unfoldable plan_address_forward : Sq → ℕ → ℕ → StoreNotify
unfolding plan
plan_address_forward q index address =
    let entry = entry_at q index in
    if entry.is_value_ready then plan q index address entry.value else no_notify

-- The variables of the loop in `replyToLoadRequest`. The orders, which start at -1, are kept one
-- higher.
pub record Search : Type 0 where
  pub youngest_same : ℕ
  pub youngest_unknown : ℕ
  pub forward_value : ℕ
  pub found_same : Bool
  pub same_value_ready : Bool
  pub reached_younger : Bool

unfoldable pub reply_step : Sq → ℕ → ℕ → ℕ → Search → Search
reply_step q addr load_tag k search =
    let index = (q.head + k) % sq_cap in
    let entry = entry_at q index in
    let reached =
      search.reached_younger || (not entry.is_committed && is_younger entry.rob_tag load_tag) in
    if not (is_active index q)
    then search
    else if reached
    then record search { reached_younger = true }
    else if not entry.is_address_ready
    then record search { youngest_unknown = suc k }
    else if entry.address == addr
    then record search {
      youngest_same = suc k;
      found_same = true;
      same_value_ready = entry.is_value_ready;
      forward_value = if entry.is_value_ready then entry.value else search.forward_value;
    }
    else search

unfoldable pub reply_loop : Sq → ℕ → ℕ → ℕ → ℕ → Search → Search
unfolding reply_step
reply_loop q addr load_tag zero k search = search
reply_loop q addr load_tag (suc rounds) k search =
    reply_loop q addr load_tag rounds (suc k) (reply_step q addr load_tag k search)

abbrev pub no_search : Search
no_search = record {
  youngest_same = 0;
  youngest_unknown = 0;
  forward_value = 0;
  found_same = false;
  same_value_ready = false;
  reached_younger = false;
}

unfoldable pub reply_to_load_request : Sq → ℕ → ℕ → StoreResponse
unfolding reply_loop
reply_to_load_request q addr load_tag =
    let search = reply_loop q addr load_tag sq_cap 0 no_search in
    record {
      valid =
          search.same_value_ready
          && search.found_same
          && ltb search.youngest_unknown search.youngest_same;
      value = search.forward_value;
    }

-- One round of the loop of `canDispatchLoad`: the store at the `k`-th place blocks the load.
unfoldable blocks_load : Sq → ℕ → ℕ → ℕ → Bool
blocks_load q addr load_tag k =
    let cur = (q.head + k) % sq_cap in
    let entry = entry_at q cur in
    is_active cur q
    && not entry.is_committed
    && is_older entry.rob_tag load_tag
    && entry.is_address_ready
    && (entry.address == addr)

unfoldable dispatch_loop : Sq → ℕ → ℕ → ℕ → ℕ → Bool → Bool
unfolding blocks_load
dispatch_loop q addr load_tag zero k has_same = has_same
dispatch_loop q addr load_tag (suc rounds) k has_same =
    dispatch_loop q addr load_tag rounds (suc k) (has_same || blocks_load q addr load_tag k)

unfoldable pub can_dispatch_load : Sq → ℕ → ℕ → Bool
unfolding dispatch_loop
can_dispatch_load q addr load_tag = not (dispatch_loop q addr load_tag sq_cap 0 false)
