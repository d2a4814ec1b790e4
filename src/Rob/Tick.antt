-- ===== src/Rob/Tick.antt =====
-- `ROB::tick` of src/ROB/ROB.cpp. Debug output is left out.
use rv32im_simulator.Prelude.{ℕ, zero, suc, ◌+◌, ◌%◌, true, not, ◌&&◌, if◌then◌else◌, some}
use rv32im_simulator.Types.{SquashInfo}
use rv32im_simulator.Tags.{survives}
use rv32im_simulator.Packet.{IssuePacket, ResultBus}
use rv32im_simulator.Bru
use rv32im_simulator.Bru.{Bru}
use rv32im_simulator.Sq
use rv32im_simulator.Sq.{Sq, sq_cap}
use rv32im_simulator.Rob.{
  Rob, will_commit, matches_tag, push, pop, set_rob_commit_ready, flush, is_head_halt, head_dest,
}

-- `struct ROBInput`.
pub record RobInput : Type 0 where
  pub squash : SquashInfo
  pub cdb_of_alu : ResultBus
  pub cdb_of_lq : ResultBus
  pub cdb_of_mul : ResultBus
  pub cdb_of_div : ResultBus
  pub bru : Bru
  pub sq : Sq
  pub packet : IssuePacket

unfoldable pub ready_branch : RobInput → Rob → Rob
ready_branch input next =
    let tag = Bru.head_rob_tag input.bru in
    if not (Bru.is_empty input.bru) && survives input.squash tag
    then set_rob_commit_ready tag next
    else next

-- The loop over the store queue, from the `k`-th place after its head on. `MEMQ_SCAN_WINDOW` is 8.
unfoldable pub ready_stores : RobInput → ℕ → ℕ → Rob → Rob
ready_stores input zero k next = next
ready_stores input (suc rounds) k next =
    let i = (input.sq.head + k) % sq_cap in
    let tag = (Sq.entry_at input.sq i).rob_tag in
    ready_stores input rounds (suc k) (
      if Sq.is_active i input.sq
        && Sq.is_ready_to_commit input.sq i
        && not (Sq.is_committed input.sq i)
        && survives input.squash tag
      then set_rob_commit_ready tag next
      else next)

unfoldable pub ready_bus : SquashInfo → ResultBus → Rob → Rob
ready_bus squash bus next =
    if bus.valid && survives squash bus.rob_tag then set_rob_commit_ready bus.rob_tag next else next

-- The multiplier's and divider's buses are checked against the state before the tick, too.
unfoldable pub ready_checked_bus : SquashInfo → ResultBus → Rob → Rob → Rob
ready_checked_bus squash bus old next =
    if bus.valid && survives squash bus.rob_tag && matches_tag bus.rob_tag old
    then set_rob_commit_ready bus.rob_tag next
    else next

unfoldable pub commit : Rob → Rob → Rob
commit old next =
    let popped = pop next in
    if is_head_halt old
    then record popped { halt_committed = true; halt_rd = some (head_dest old) }
    else popped

unfoldable pub tick : RobInput → Rob → Rob
unfolding ready_branch ready_stores ready_bus ready_checked_bus commit
tick input old =
    let squash = input.squash in
    let issued = if input.packet.valid then push input.packet.rob_entry old else old in
    let branched = ready_branch input issued in
    let stored = ready_stores input sq_cap 0 branched in
    let computed = ready_bus squash input.cdb_of_alu stored in
    let loaded = ready_bus squash input.cdb_of_lq computed in
    let multiplied = ready_checked_bus squash input.cdb_of_mul old loaded in
    let divided = ready_checked_bus squash input.cdb_of_div old multiplied in
    let squashed = if squash.need_squash then flush squash.squash_tag divided else divided in
    if will_commit squash old then commit old squashed else squashed
