-- ===== src/Arbiter/Issue/Halt.antt =====
-- The halt marker in `IssueArbiter::build` of src/StaticArbiter/StaticArbiter.cpp, which is issued
-- without a test of the reorder buffer's room.
use mathlib.Core.Option
use rv32im_simulator.Prelude.{
  ℕ, ◌+◌, Bool, true, false, ◌==◌, some, ◌≡◌, refl, ap, ap₂, sym, ◌||◌, ◌∙◌, get_or-set_self,
  if◌then◌else◌, arith,
}
use rv32im_simulator.Tags.{rob_cap, rob_slot}
use rv32im_simulator.Packet.{IssuePacket, RobEntry}
use rv32im_simulator.Decoder.{i}
use rv32im_simulator.Decoder.Queue.{is_empty}
use rv32im_simulator.Rob.{Rob, push, default_entry, entry_at, is_head_commit_ready, is_head_halt}
use rv32im_simulator.Rob.Window.{Window}
use rv32im_simulator.Arbiter.Issue.{IssueInput, idle}
use rv32im_simulator.Arbiter.Issue.Select.{issue_format, issue_i, issue_halt, build}
use rv32im_simulator.Arbiter.Issue.Build.{next_uop}

if_true {ℓ} : {A : Type ℓ} (b : Bool) (x y : A) → b ≡ true → (if b then x else y) ≡ x
if_true b x y e = ap (λ b. if b then x else y) e

issues_halt :
    (input : IssueInput)
    → input.squash.need_squash ≡ false
    → is_empty input.decode_unit ≡ false
    → (next_uop input).format ≡ i
    → (next_uop input).opcode ≡ 0b0010011
    → (next_uop input).is_halt ≡ true
    → build input ≡ some (issue_halt input (next_uop input))
unfolding build issue_format issue_i
issues_halt input q e f o h =
    let inst = next_uop input in
    ap₂ (λ a b. if a || b then some idle else issue_format inst.format input inst) q e
    ∙ ap (λ format. issue_format format input inst) f
    ∙ if_true (inst.opcode == 0b0010011) _ _ (ap (λ o. o == 0b0010011) o)
    ∙ if_true inst.is_halt _ _ h

-- The pushed entry stands at the head of a full buffer.
push-full :
    (entry : RobEntry) (rob : Rob) (h : ℕ)
    → Window rob h (h + rob_cap)
    → entry_at (push entry rob) (rob_slot (push entry rob).head)
      ≡ record entry { tag = rob.next_tag }
unfolding push
push-full entry rob h w =
    let same : rob_slot rob.head ≡ rob_slot rob.next_tag = omega (arith, w.head_is, w.next_is) in
    rw same (
      get_or-set_self rob.rob_queue (rob_slot rob.next_tag) _ default_entry
        (omega (arith, w.storage)))

-- With a full reorder buffer and no squash, the halt marker at the head of the queue is issued,
-- and the push of its entry leaves at the buffer's head a halt that is ready to commit.
pub halt_overwrites :
    (input : IssueInput) (p : IssuePacket) (h : ℕ)
    → Window input.rob h (h + rob_cap)
    → input.squash.need_squash ≡ false
    → is_empty input.decode_unit ≡ false
    → (next_uop input).format ≡ i
    → (next_uop input).opcode ≡ 0b0010011
    → (next_uop input).is_halt ≡ true
    → build input ≡ some p
    → (p.valid ≡ true)
      × (is_head_halt (push p.rob_entry input.rob) ≡ true)
      × (is_head_commit_ready (push p.rob_entry input.rob) ≡ true)
unfolding is_head_halt is_head_commit_ready issue_halt
halt_overwrites input p h w q e f o halts built =
    let same : issue_halt input (next_uop input) ≡ p =
      Option.some-injective _ p (sym (issues_halt input q e f o halts) ∙ built) in
    rw (← same) (
      refl,
      ap (λ (r : RobEntry). r.halt) (push-full _ input.rob h w),
      ap (λ (r : RobEntry). r.is_commit_ready) (push-full _ input.rob h w),
    )
