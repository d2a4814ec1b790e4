-- ===== src/Prf/Tick.antt =====
-- `PRF::tick` of src/PRF/PRF.cpp.
use rv32im_simulator.Prelude.{
  Bool, true, false, not, ◌&&◌, ◌==◌, if◌then◌else◌, Option, none, some, get_or, set, add32,
}
use rv32im_simulator.Types.{SquashInfo, invalid_phy}
use rv32im_simulator.Tags.{rob_slot, survives, prf_cap, prf_seq_next, prf_seq_distance}
use rv32im_simulator.Packet.{IssuePacket, ResultBus, RobType, register_type, link_type}
use rv32im_simulator.Rob
use rv32im_simulator.Rob.{Rob}
use rv32im_simulator.Prelude.{leb}
use rv32im_simulator.Prf.{Prf, pop, push, write}

infixl 5 ◌>>=◌
abbrev ◌>>=◌ : Option Prf → (Prf → Option Prf) → Option Prf
none >>= f = none
some p >>= f = f p

-- `struct PRFInput`.
pub record PrfInput : Type 0 where
  pub packet : IssuePacket
  pub squash : SquashInfo
  pub cdb_of_alu : ResultBus
  pub cdb_of_lq : ResultBus
  pub cdb_of_mul : ResultBus
  pub cdb_of_div : ResultBus
  pub rob : Rob

-- One of the four write-back blocks: a result of a live instruction goes to its new register. Only
-- the integer unit's bus carries control results, which `issue` has written already.
unfoldable write_back : PrfInput → ResultBus → Prf → Prf
write_back input bus next =
    let new_phy = (Rob.entry_at input.rob (rob_slot bus.rob_tag)).new_phy in
    if bus.valid
      && Rob.matches_tag bus.rob_tag input.rob
      && survives input.squash bus.rob_tag
      && not bus.is_control
      && not (new_phy == invalid_phy)
    then write new_phy bus.value next
    else next

-- The issued instruction saves the head that holds after it and takes its register; `none` is a
-- failed assertion or the exception of `pop`. A control instruction's link is written at once.
unfoldable pub allocate : PrfInput → Prf → Prf → Option Prf
allocate input old next =
    let packet = input.packet in
    let ckpt = packet.rob_entry.ckpt_id in
    let saved_head = if packet.alloc_dest then prf_seq_next old.head_seq else old.head_seq in
    let saved = record next { head_ckpt = set next.head_ckpt ckpt saved_head } in
    if packet.valid
    then (if packet.alloc_dest
        then elim (pop saved) [
          | none ↦ none
          | some (head_phy, popped) ↦
              if head_phy == packet.phy
              then some (
                  if packet.is_control then write packet.phy (add32 packet.pc 4) popped else popped)
              else none
        ]
        else some saved)
    else some next

-- `restoreHead`; `none` is its failed assertion. The checkpoint is read before the tick.
unfoldable pub restore_head : PrfInput → Prf → Prf → Option Prf
restore_head input old next =
    let ckpt_head = get_or old.head_ckpt input.squash.ckpt_id 0 in
    if input.squash.need_squash
    then (if leb (prf_seq_distance ckpt_head next.tail_seq) prf_cap
        then some (record next { head_seq = ckpt_head })
        else none)
    else some next

abbrev frees_register : RobType → Bool
frees_register register_type = true
frees_register link_type = true
frees_register _ = false

-- The committing instruction frees the register that its destination had before.
unfoldable pub release : PrfInput → Prf → Option Prf
release input next =
    let rob = input.rob in
    let old_phy = (Rob.entry_at rob (rob_slot rob.head)).old_phy in
    if Rob.will_commit input.squash rob
      && not (Rob.is_head_halt rob)
      && frees_register (Rob.head_type rob)
      && not (old_phy == invalid_phy)
    then push old_phy next
    else some next

unfoldable pub tick : PrfInput → Prf → Option Prf
unfolding write_back allocate restore_head release
tick input old =
    let computed = write_back input input.cdb_of_alu old in
    let loaded = write_back input input.cdb_of_lq computed in
    let multiplied = write_back input input.cdb_of_mul loaded in
    let divided = write_back input input.cdb_of_div multiplied in
    allocate input old divided >>= λ issued. restore_head input old issued >>= release input
