-- ===== src/Sq/Tick.antt =====
-- `SQ::tick` of src/SQ/SQ.cpp.
use rv32im_simulator.Prelude.{
  ℕ, zero, suc, Bool, true, false, not, ◌&&◌, ◌==◌, if◌then◌else◌, List, [], ◌∷◌,
}
use rv32im_simulator.Types.{
  SquashInfo, MemDispatchDecision, Operation, store, is_store_mem, mem_slot,
}
use rv32im_simulator.Tags.{survives, rob_slot}
use rv32im_simulator.Packet.{IssuePacket}
use rv32im_simulator.Rs.{RsUnit, StoreValueStation}
use rv32im_simulator.Prf.{Prf, is_operand_ready, get_operand_value}
use rv32im_simulator.Agu
use rv32im_simulator.Agu.{Agu}
use rv32im_simulator.Rob
use rv32im_simulator.Rob.{Rob}
use rv32im_simulator.Sq.{
  Sq, sq_cap, entry_at, is_active, pop, push_store, flush, write_address, write_value,
  set_committed,
}

-- `struct SQInput`.
pub record SqInput : Type 0 where
  pub squash : SquashInfo
  pub agu : Agu
  pub rs : RsUnit
  pub prf : Prf
  pub rob : Rob
  pub packet : IssuePacket
  pub decision : MemDispatchDecision

-- The loop over the store-value stations: a ready operand is written to its store.
unfoldable write_values : SqInput → List StoreValueStation → Sq → Sq
write_values input [] next = next
write_values input (station ∷ rest) next = write_values input rest (
    if not station.free
      && is_operand_ready input.prf station.store_data
      && survives input.squash station.rob_tag
    then write_value (get_operand_value input.prf station.store_data) (mem_slot station.mem_index)
        next
    else next)

unfoldable pub take_address : SqInput → Sq → Sq
take_address input next =
    if not (Agu.is_empty input.agu)
      && is_store_mem (Agu.head_mem_index input.agu)
      && survives input.squash (Agu.head_rob_tag input.agu)
    then write_address (Agu.head_value input.agu) (mem_slot (Agu.head_mem_index input.agu)) next
    else next

abbrev pub is_store_op : Operation → Bool
is_store_op store = true
is_store_op _ = false

-- The loop that marks the committing store; the tests read the state before the tick.
unfoldable commit_loop : Sq → ℕ → ℕ → ℕ → Sq → Sq
commit_loop old store_tag zero i next = next
commit_loop old store_tag (suc rounds) i next = commit_loop old store_tag rounds (suc i) (
    if is_active i old
      && ((entry_at old i).rob_tag == store_tag)
      && not (entry_at old i).is_committed
    then set_committed i next
    else next)

unfoldable pub tick : SqInput → Sq → Sq
unfolding write_values take_address commit_loop
tick input old =
    let p = input.packet in
    let pushed = if p.valid && p.is_store then push_store p.rob_tag p.n_bytes old else old in
    let valued = write_values input input.rs.store_value_rs pushed in
    let addressed = take_address input valued in
    let popped =
      if input.decision.valid && is_store_op input.decision.request.op
      then pop addressed
      else addressed in
    let committed =
      if Rob.store_will_commit input.squash input.rob
      then commit_loop old input.rob.head sq_cap 0 popped
      else popped in
    let tag = input.squash.squash_tag in
    if input.squash.need_squash && Rob.matches_tag tag input.rob
    then flush (Rob.entry_at input.rob (rob_slot tag)).sq_tail_snapshot committed
    else committed
