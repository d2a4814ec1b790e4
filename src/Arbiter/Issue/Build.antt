-- ===== src/Arbiter/Issue/Build.antt =====
-- `IssueArbiter::build` of src/StaticArbiter/StaticArbiter.cpp: an issued instruction has room
-- everywhere it goes.
use mathlib.Core.Path.{subst}
use rv32im_simulator.Rob.Tick.{RobInput, tick}
use rv32im_simulator.Rob.Window.{Window, flags-Window}
use rv32im_simulator.Rob.Cycle.{SquashesAt, start_after, end_after, tick-Window}
use rv32im_simulator.Prelude.{
  ℕ, sym, ap, ◌∙◌, arith, Bool, true, false, if◌then◌else◌, Option, some, ◌≡◌, ◌≢◌, refl,
}
use rv32im_simulator.Types.{op_invalid}
use rv32im_simulator.Packet.{IssuePacket}
use rv32im_simulator.Decoder.{Uop, RiscV, r, m, i, i_star, s, b, u, j, rv_invalid}
use rv32im_simulator.Decoder.Queue.{head_uop}
use rv32im_simulator.Arbiter.Issue.{IssueInput, idle, issue_integer_rs}
use rv32im_simulator.Arbiter.Issue.Select.{
  decode_op, issue_m, issue_i, issue_u, issue_format, issue_halt, build,
}
use rv32im_simulator.Arbiter.Issue.Room.{Holds, Holds-intro, Holds-some, Sound, Issued}
use rv32im_simulator.Arbiter.Issue.Room.Stations.{
  idle-Issued, integer-Issued, direct-Issued, multiply-Issued, divide-Issued, branch-Issued,
  load-Issued, store-Issued,
}

-- A test between packets, each of which has the property.
if-Holds :
    (P : IssuePacket → Type 0) (test : Bool) (x y : Option IssuePacket)
    → Holds P x
    → Holds P y
    → Holds P (if test then x else y)
if-Holds P true x y h k = h
if-Holds P false x y h k = k

module _ (input : IssueInput) (inst : Uop) where
  none-Issued : Holds (Issued input) (some idle)
  none-Issued = Holds-intro (Issued input) idle (idle-Issued input inst op_invalid)

  m-Issued : Holds (Issued input) (issue_m input inst)
  unfolding issue_m
  m-Issued =
      let op = decode_op inst in
      if-Holds (Issued input) _ _ _ none-Issued (
        if-Holds (Issued input) _ _ _ (divide-Issued input inst op) (multiply-Issued input inst op))

  i-Issued : inst.is_halt ≡ false → Holds (Issued input) (issue_i input inst)
  unfolding issue_i
  i-Issued e =
      let op = decode_op inst in
      let halts = λ (halt : Bool).
        if halt
        then some (issue_halt input inst)
        else issue_integer_rs input inst op false true false in
      if-Holds (Issued input) _ _ _
        (subst (λ halt. Holds (Issued input) (halts halt)) (sym e)
          (integer-Issued input inst op false true false))
        (if-Holds (Issued input) _ _ _ (integer-Issued input inst op false true true)
          (if-Holds (Issued input) _ _ _ (load-Issued input inst op _ _) none-Issued))

  u-Issued : Holds (Issued input) (issue_u input inst)
  unfolding issue_u
  u-Issued =
      let op = decode_op inst in
      if-Holds (Issued input) _ _ _ (direct-Issued input inst op true false)
        (if-Holds (Issued input) _ _ _ (direct-Issued input inst op false false) none-Issued)

  select-Issued :
      (format : RiscV)
      → inst.is_halt ≡ false
      → format ≢ rv_invalid
      → Holds (Issued input) (issue_format format input inst)
  unfolding issue_format
  select-Issued r h n = integer-Issued input inst (decode_op inst) true false false
  select-Issued m h n = m-Issued
  select-Issued i h n = i-Issued h
  select-Issued i_star h n = integer-Issued input inst (decode_op inst) false true false
  select-Issued s h n = store-Issued input inst (decode_op inst) _
  select-Issued b h n = branch-Issued input inst (decode_op inst)
  select-Issued u h n = u-Issued
  select-Issued j h n = direct-Issued input inst (decode_op inst) true true
  select-Issued rv_invalid h n = absurd (n refl)

-- The instruction that may be issued.
abbrev pub next_uop : IssueInput → Uop
next_uop input = head_uop input.decode_unit

-- A valid packet that `build` gives for an instruction that is neither the halt marker nor invalid
-- has the reorder buffer's next tag, with the buffer not full; its destination register, if it
-- takes one, is the head of a free list that is not empty; exactly one of its fields for a station
-- of the integer, multiply, divide, load, store and branch kinds is filled; and every station that
-- it fills was free, both of a store, with a place left in the load or store queue for a load or a
-- store.
pub build-Sound :
    (input : IssueInput) (p : IssuePacket)
    → build input ≡ some p
    → p.valid ≡ true
    → (next_uop input).is_halt ≡ false
    → (next_uop input).format ≢ rv_invalid
    → Sound input p
unfolding build
build-Sound input p e v h n =
    Holds-some (Issued input) _ p
      (if-Holds (Issued input) _ _ _ (none-Issued input (next_uop input))
        (select-Issued input (next_uop input) _ h n))
      e v

-- If the reorder buffer holds the allocations from `h` up to `n`, and the packet of its tick is
-- the one that `build` gives for the same buffer and an instruction that is neither the halt
-- marker nor invalid, and a squash names the `k`-th allocation, which is in flight, then after the
-- tick the buffer holds the window that `start_after` and `end_after` give: no entry in flight is
-- overwritten.
pub build-tick-Window :
    (input : IssueInput) (ticked : RobInput) (p : IssuePacket) (h n k : ℕ)
    → Window input.rob h n
    → build input ≡ some p
    → ticked.packet ≡ p
    → (next_uop input).is_halt ≡ false
    → (next_uop input).format ≢ rv_invalid
    → SquashesAt ticked.squash h n k
    → Window (tick ticked input.rob) (start_after ticked input.rob h) (end_after ticked n k)
build-tick-Window input ticked p h n k w e same halts format squash =
    tick-Window ticked input.rob h n k w
      (λ v.
        let sound =
          build-Sound input p e (ap (λ (q : IssuePacket). q.valid) (sym same) ∙ v) halts format in
        ground (arith, sound.room, flags-Window input.rob h n w, w.bounded))
      squash
