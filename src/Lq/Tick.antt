-- ===== src/Lq/Tick.antt =====
-- `LQ::tick` of src/LQ/LQ.cpp.
use rv32im_simulator.Prelude.{
  Bool, true, false, not, ◌&&◌, ◌||◌, ◌==◌, if◌then◌else◌, List, [], ◌∷◌,
}
use rv32im_simulator.Types.{
  SquashInfo, MemDispatchDecision, LoadResponse, Operation, load, fetching, is_store_mem, mem_slot,
}
use rv32im_simulator.Tags.{is_older, survives, rob_slot}
use rv32im_simulator.Packet.{IssuePacket, ResultBus}
use rv32im_simulator.Agu
use rv32im_simulator.Agu.{Agu}
use rv32im_simulator.Rob
use rv32im_simulator.Rob.{Rob}
use rv32im_simulator.Sq.{Sq}
use rv32im_simulator.Sq.Forward.{StoreNotify, reply_to_load_request}
use rv32im_simulator.Lq.{
  Lq, push_load, pop, flush, write_address, write_value, write_value_if_fetching, set_value_state,
  set_cdb_broadcast, head_rob_tag, apply_store_forward,
}

-- `struct LQInput`; `store_notifies` are the four broadcasts of the store-value stations.
pub record LqInput : Type 0 where
  pub squash : SquashInfo
  pub agu : Agu
  pub rob : Rob
  pub packet : IssuePacket
  pub sq : Sq
  pub cdb_output : ResultBus
  pub load_resp : LoadResponse
  pub decision : MemDispatchDecision
  pub store_notifies : List StoreNotify
  pub store_addr_notify : StoreNotify

unfoldable take_forward : StoreNotify → Lq → Lq
take_forward notify next = if notify.valid then apply_store_forward notify next else next

unfoldable take_forwards : List StoreNotify → Lq → Lq
unfolding take_forward
take_forwards [] next = next
take_forwards (notify ∷ rest) next = take_forwards rest (take_forward notify next)

-- A load's address arrives, with the value of an earlier store if the store queue has it.
unfoldable pub take_address : LqInput → Lq → Lq
take_address input next =
    let tag = Agu.head_rob_tag input.agu in
    let address = Agu.head_value input.agu in
    let index = mem_slot (Agu.head_mem_index input.agu) in
    let reply = reply_to_load_request input.sq address tag in
    let addressed = write_address address index next in
    if not (Agu.is_empty input.agu)
      && not (is_store_mem (Agu.head_mem_index input.agu))
      && survives input.squash tag
    then (if reply.valid then write_value reply.value index addressed else addressed)
    else next

abbrev pub is_load_op : Operation → Bool
is_load_op load = true
is_load_op _ = false

unfoldable retires_load : LqInput → Lq → Bool
retires_load input old =
    not input.squash.need_squash
    && not (old.head == old.tail)
    && (Rob.is_empty input.rob || is_older (head_rob_tag old) input.rob.head)

unfoldable pub tick : LqInput → Lq → Lq
unfolding take_forwards take_address retires_load
tick input old =
    let p = input.packet in
    let pushed =
      if p.valid && p.is_load then push_load p.rob_tag p.n_bytes p.is_unsigned old else old in
    let forwarded =
      take_forward input.store_addr_notify (take_forwards input.store_notifies pushed) in
    let addressed = take_address input forwarded in
    let request = input.decision.request in
    let sent =
      if input.decision.valid && is_load_op request.op
      then set_value_state (mem_slot request.mem_index) fetching addressed
      else addressed in
    let retired = if retires_load input old then pop sent else sent in
    let resp = input.load_resp in
    let answered =
      if resp.valid
      then write_value_if_fetching resp.rob_tag (mem_slot resp.mem_index) resp.value retired
      else retired in
    let bus = input.cdb_output in
    let broadcast =
      if bus.valid && survives input.squash bus.rob_tag
      then set_cdb_broadcast (mem_slot bus.mem_index) answered
      else answered in
    let tag = input.squash.squash_tag in
    if input.squash.need_squash && Rob.matches_tag tag input.rob
    then flush (Rob.entry_at input.rob (rob_slot tag)).lq_tail_snapshot broadcast
    else broadcast
