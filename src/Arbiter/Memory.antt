-- ===== src/Arbiter/Memory.antt =====
-- `MemArbiter::arbitrate`: one memory request a cycle, a committed store before a load.
use rv32im_simulator.Prelude.{
  ◌+◌, Bool, true, false, not, ◌&&◌, ◌||◌, ◌==◌, if◌then◌else◌, Option, none, some,
}
use rv32im_simulator.Types.{SquashInfo, MemRequest, MemDispatchDecision, op_invalid, load, store}
use rv32im_simulator.Tags.{survives}
use rv32im_simulator.Rob
use rv32im_simulator.Rob.{Rob}
use rv32im_simulator.Lq
use rv32im_simulator.Lq.{Lq}
use rv32im_simulator.Sq
use rv32im_simulator.Sq.{Sq}
use rv32im_simulator.Sq.Forward.{can_dispatch_load}

abbrev pub no_request : MemRequest
no_request = record {
  op = op_invalid;
  value = 0;
  address = 0;
  is_signed = false;
  n_bytes = 0;
  rob_tag = 0;
  mem_index = 0;
}

abbrev pub no_decision : MemDispatchDecision
no_decision = record { valid = false; request = no_request }

-- The oldest store goes when it has committed, or commits in this cycle.
unfoldable store_goes : Sq → Rob → SquashInfo → Bool
store_goes sq rob squash =
    let committed = Sq.is_committed sq sq.head in
    committed || (Rob.store_will_commit squash rob && (Sq.head_rob_tag sq == rob.head))

-- `none` is an exception of the accessors. The bit 0x40 marks a store's index, which is below it.
unfoldable store_request : Sq → Option MemRequest
store_request sq = elim (Sq.get_address sq sq.head) [
  | none ↦ none
  | some address ↦ elim (Sq.get_value sq sq.head) [
    | none ↦ none
    | some value ↦ some (record no_request {
      address = address;
      value = value;
      n_bytes = (Sq.entry_at sq sq.head).n_bytes;
      op = store;
      rob_tag = Sq.head_rob_tag sq;
      mem_index = sq.head + 64;
    })
  ]
]

-- The oldest load that waits for memory, if no store before it has its address.
unfoldable load_decision : Lq → Sq → SquashInfo → Option MemDispatchDecision
load_decision lq sq squash = elim (Lq.load_detect lq) [
  | none ↦ some no_decision
  | some index ↦ elim (Lq.get_address lq index) [
    | none ↦ none
    | some address ↦
        let entry = Lq.entry_at lq index in
        if can_dispatch_load sq address entry.rob_tag && survives squash entry.rob_tag
        then some (record {
          valid = true;
          request = record no_request {
            address = address;
            is_signed = not entry.is_unsigned;
            n_bytes = entry.n_bytes;
            op = load;
            rob_tag = entry.rob_tag;
            mem_index = index;
          };
        })
        else some no_decision
  ]
]

-- The data cache enters by its flag `isBusy`.
unfoldable pub arbitrate : Lq → Sq → Rob → Bool → SquashInfo → Option MemDispatchDecision
unfolding store_goes store_request load_decision
arbitrate lq sq rob busy squash =
    if busy
    then some no_decision
    else if not (Sq.is_empty sq) && store_goes sq rob squash
    then elim (store_request sq) [
      | none ↦ none
      | some request ↦ some (record { valid = true; request = request })
    ]
    else load_decision lq sq squash
