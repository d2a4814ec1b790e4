-- ===== src/Tests/Issuing.antt =====
-- Tests of the decoder's round trip and of the issue arbiter.
use rv32im_simulator.Prelude.{
  ℕ, zero, suc, ◌+◌, ◌-◌, ◌^◌, ◌≤◌, ◌≡◌, refl, true, Option, none, some, sym, [], ◌∷◌, replicate,
  arith,
}
use mathlib.Core.Path.{subst}
use rv32im_simulator.FetchQueue
use rv32im_simulator.Packet.{IssuePacket}
use rv32im_simulator.Tags.{rob_cap}
use rv32im_simulator.Decoder.{Uop, decode, r, u}
use rv32im_simulator.Decoder.Queue.{UopQueue, zero_uop, head_uop, is_empty, decode_entry}
use rv32im_simulator.Decoder.Encode.{Mnemonic, Operands, format, operation, encode}
use rv32im_simulator.Decoder.Classes.{Decodes}
use rv32im_simulator.Decoder.RoundTrip.{decode-encode}
use rv32im_simulator.Ring
use rv32im_simulator.Rs.Tick.{try_alloc_integer}
use rv32im_simulator.Tags.{prf_seq_next}
use rv32im_simulator.Rob
use rv32im_simulator.Rob.{Rob}
use rv32im_simulator.Rob.Tick.{RobInput, tick}
use rv32im_simulator.Rob.Window.{Window, push-Window}
use rv32im_simulator.Rob.Cycle.{start_after, end_after}
use rv32im_simulator.Rat
use rv32im_simulator.Rat.{Rat, rename, set_rat_prf, restore_rat_prf}
use rv32im_simulator.Rat.Mapped.{Reached, none_written, written_after, issued_to, reset, cycle}
use rv32im_simulator.Prf
use rv32im_simulator.Lq
use rv32im_simulator.Sq
use rv32im_simulator.Arbiter.Issue.{IssueInput, idle, guarded, renamed, issue_u_and_j}
use rv32im_simulator.Arbiter.Issue.Select.{build, issue_format, issue_u, issue_i, issue_halt}
use rv32im_simulator.Arbiter.Issue.Room.{Sound}
use rv32im_simulator.Arbiter.Issue.Build.{next_uop, build-Sound, build-tick-Window}
use rv32im_simulator.Arbiter.Issue.Total.{build_total}
use rv32im_simulator.Arbiter.Issue.Halt.{halt_overwrites}
use rv32im_simulator.Tests.Samples.{quiet, silent_bus, empty_unit, packet_of}

-- `bge x3, x4, -8`.
abbrev back : Operands
back = record { rd = 0; rs1 = 3; rs2 = 4; imm = 2 ^ 32 - 8 }

decode-encode_example :
    let name = Mnemonic.bge_word in
    Decodes (format name) (operation name) back (decode (encode name back))
decode-encode_example = decode-encode Mnemonic.bge_word back (omega arith)

-- `lui x5, 4096`.
abbrev lui_uop : Uop
lui_uop = record zero_uop { format = u; opcode = 0b0110111; rd = 5; imm = 4096; alloc_dest = true }

abbrev queue_of : Uop → UopQueue
queue_of uop = record { slots = uop ∷ replicate 3 zero_uop; head = 0; tail = 1 }

abbrev input_of : Uop → Rob → IssueInput
input_of uop rob = record {
  decode_unit = queue_of uop;
  rob = rob;
  rs = empty_unit;
  rat = Rat.initial;
  prf = Prf.initial;
  lq = Lq.initial;
  sq = Sq.initial;
  squash = quiet;
}

abbrev packet_in : Option IssuePacket → IssuePacket
packet_in none = idle
packet_in (some p) = p

abbrev next_input : IssueInput
next_input = input_of lui_uop Rob.initial

abbrev issued : IssuePacket
issued = packet_in (build next_input)

builds_issued : build next_input ≡ some issued
unfolding build is_empty head_uop issue_format issue_u issue_u_and_j guarded Ring.is_empty
    Rob.is_full try_alloc_integer Prf.is_free_list_empty Prf.initial prf_seq_next
builds_issued = refl

is_issued : issued.valid ≡ true
unfolding build is_empty head_uop issue_format issue_u issue_u_and_j guarded renamed Ring.is_empty
    Rob.is_full try_alloc_integer Prf.is_free_list_empty Prf.initial prf_seq_next
is_issued = refl

build-Sound_example : Sound next_input issued
unfolding head_uop
build-Sound_example = build-Sound next_input issued builds_issued is_issued refl (λ e. cc)

abbrev rob_input : RobInput
rob_input = record {
  squash = quiet;
  cdb_of_alu = silent_bus;
  cdb_of_lq = silent_bus;
  cdb_of_mul = silent_bus;
  cdb_of_div = silent_bus;
  bru = [];
  sq = Sq.initial;
  packet = issued;
}

empty_Window : Window Rob.initial 0 0
empty_Window = record {
  storage = refl;
  head_is = refl;
  next_is = refl;
  ordered = omega arith;
  bounded = omega arith;
  tags = λ k p q. absurd (omega arith);
}

build-tick-Window_example :
    Window
      (tick rob_input Rob.initial)
      (start_after rob_input Rob.initial 0)
      (end_after rob_input 0 0)
unfolding head_uop
build-tick-Window_example =
    build-tick-Window next_input rob_input issued 0 0 0 empty_Window builds_issued refl refl
      (λ e. cc) (λ e. cc)

-- `x5` renamed to register 33 in the cycle before, then `add x7, x5, x6`.
abbrev renaming : IssuePacket
renaming = packet_of true 5 33 0

abbrev rat_after : Rat
rat_after = issued_to renaming quiet Rat.initial

rat_ticks : Rat.tick renaming quiet Rat.initial ≡ some rat_after
unfolding Rat.tick rename set_rat_prf restore_rat_prf
rat_ticks = refl

rat_reached : Reached (written_after renaming none_written) rat_after
rat_reached = cycle reset renaming quiet rat_after (λ e. omega arith) (λ e. cc) rat_ticks

abbrev add_uop : Uop
add_uop = record zero_uop {
  format = r;
  opcode = 0b0110011;
  rd = 7;
  rs1 = 5;
  rs2 = 6;
  alloc_dest = true;
}

abbrev add_input : IssueInput
add_input = record next_input { decode_unit = queue_of add_uop; rat = rat_after }

build_total_example : (p : IssuePacket) × (build add_input ≡ some p)
unfolding head_uop
build_total_example =
    build_total (written_after renaming none_written) add_input rat_reached (omega arith)
      (omega arith)

-- A full reorder buffer, and the halt marker at the head of the queue.
abbrev pushes : ℕ → Rob
pushes zero = Rob.initial
pushes (suc n) = Rob.push Rob.default_entry (pushes n)

pushes-Window : (n : ℕ) → n ≤ rob_cap → Window (pushes n) 0 n
pushes-Window zero h = empty_Window
pushes-Window (suc n) h =
    let e : suc n ≡ n + 1 = omega arith in
    let more =
      push-Window Rob.default_entry (pushes n) 0 n (pushes-Window n (omega arith)) (omega arith) in
    subst (Window (pushes (suc n)) 0) (sym e) more

abbrev halt_uop : Uop
halt_uop = decode_entry (record FetchQueue.zero_entry { raw = 0x0ff00513 })

abbrev halt_input : IssueInput
halt_input = input_of halt_uop (pushes 16)

builds_halt : build halt_input ≡ some (issue_halt halt_input (next_uop halt_input))
unfolding build is_empty head_uop issue_format issue_i decode_entry decode Ring.is_empty
builds_halt = refl

halt_overwrites_example :
    let p = issue_halt halt_input (next_uop halt_input) in
    (p.valid ≡ true)
    × (Rob.is_head_halt (Rob.push p.rob_entry (pushes 16)) ≡ true)
    × (Rob.is_head_commit_ready (Rob.push p.rob_entry (pushes 16)) ≡ true)
unfolding head_uop decode_entry decode is_empty Ring.is_empty
halt_overwrites_example =
    halt_overwrites halt_input (issue_halt halt_input (next_uop halt_input)) 0
      (pushes-Window 16 (omega arith)) refl refl refl refl refl builds_halt
