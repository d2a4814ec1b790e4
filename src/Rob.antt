-- ===== src/Rob.antt =====
-- The reorder buffer of src/include/ROB.hpp and src/ROB/ROB.cpp. `Rob.Tick` has the clocked part, and
-- `Rob.Window` what the buffer holds.
pub mod Tick
pub mod Window
pub mod Cycle
use rv32im_simulator.Prelude.{
  ℕ, Bool, true, false, not, ◌&&◌, ◌||◌, ◌==◌, ltb, if◌then◌else◌, Option, none, some, List, get_or,
  set, replicate,
}
use rv32im_simulator.Types.{SquashInfo, invalid_phy}
use rv32im_simulator.Tags.{rob_cap, rob_slot, rob_next_tag, is_older}
use rv32im_simulator.Packet.{RobEntry, RobType, register_type, branch_type, store_type, link_type}

-- `halt_rd` is -1 in the source until a halt commits.
pub record Rob : Type 0 where
  pub rob_queue : List RobEntry
  pub head : ℕ
  pub next_tag : ℕ
  pub halt_committed : Bool
  pub halt_rd : Option ℕ

abbrev pub default_entry : RobEntry
default_entry = record {
  entry_type = register_type;
  is_commit_ready = false;
  tag = 0xff;
  dest = 0;
  predicted_pc = 0;
  pc = 0;
  halt = false;
  is_call = false;
  is_ret = false;
  is_indirect = false;
  lq_tail_snapshot = 0;
  sq_tail_snapshot = 0;
  ckpt_id = 0;
  new_phy = invalid_phy;
  old_phy = invalid_phy;
}

abbrev pub initial : Rob
initial = record {
  rob_queue = replicate rob_cap default_entry;
  head = 0;
  next_tag = 0;
  halt_committed = false;
  halt_rd = none;
}

-- `ROBqueue[index]`.
abbrev pub entry_at : Rob → ℕ → RobEntry
entry_at rob index = get_or rob.rob_queue index default_entry

unfoldable pub is_full : Rob → Bool
is_full rob = (rob_slot rob.next_tag == rob_slot rob.head) && not (rob.next_tag == rob.head)

unfoldable pub is_empty : Rob → Bool
is_empty rob = rob.head == rob.next_tag

unfoldable pub matches_tag : ℕ → Rob → Bool
unfolding is_empty
matches_tag tag rob =
    not (is_empty rob) && ltb (rob_slot tag) rob_cap && ((entry_at rob (rob_slot tag)).tag == tag)

unfoldable pub is_head_commit_ready : Rob → Bool
is_head_commit_ready rob = (entry_at rob (rob_slot rob.head)).is_commit_ready

unfoldable pub is_head_halt : Rob → Bool
is_head_halt rob = (entry_at rob (rob_slot rob.head)).halt

unfoldable pub head_type : Rob → RobType
head_type rob = (entry_at rob (rob_slot rob.head)).entry_type

unfoldable pub head_dest : Rob → ℕ
head_dest rob = (entry_at rob (rob_slot rob.head)).dest

unfoldable pub will_commit : SquashInfo → Rob → Bool
unfolding is_empty is_head_commit_ready
will_commit squash rob =
    not (is_empty rob)
    && is_head_commit_ready rob
    && (not squash.need_squash || is_older rob.head squash.squash_tag)

abbrev is_store_type : RobType → Bool
is_store_type store_type = true
is_store_type _ = false

unfoldable pub store_will_commit : SquashInfo → Rob → Bool
unfolding will_commit head_type
store_will_commit squash rob = will_commit squash rob && is_store_type (head_type rob)

-- `ROB::push`, which also returns the slot; nothing reads it.
unfoldable pub push : RobEntry → Rob → Rob
push entry rob = record rob {
  rob_queue = set rob.rob_queue (rob_slot rob.next_tag) (record entry { tag = rob.next_tag });
  next_tag = rob_next_tag rob.next_tag;
}

unfoldable pub pop : Rob → Rob
pop rob = record rob { head = rob_next_tag rob.head }

unfoldable pub set_rob_commit_ready : ℕ → Rob → Rob
unfolding matches_tag
set_rob_commit_ready tag rob =
    let entry = entry_at rob (rob_slot tag) in
    if matches_tag tag rob
    then record rob {
      rob_queue = set rob.rob_queue (rob_slot tag) (record entry { is_commit_ready = true });
    }
    else rob

-- Everything after the squashing instruction leaves the buffer.
unfoldable pub flush : ℕ → Rob → Rob
unfolding matches_tag
flush squash_tag rob =
    if matches_tag squash_tag rob then record rob { next_tag = rob_next_tag squash_tag } else rob
