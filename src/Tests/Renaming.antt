-- ===== src/Tests/Renaming.antt =====
-- Tests of the reorder buffer, the alias table and the free list.
use rv32im_simulator.Prelude.{ℕ, ◌≤◌, ◌<◌, ◌≡◌, ◌==◌, ltb, refl, true, false, some, [], arith}
use rv32im_simulator.Tags.{is_older}
use rv32im_simulator.Tags.Order.{tag_of, is_older-tag_of}
use rv32im_simulator.Sq
use rv32im_simulator.Packet.{IssuePacket}
use rv32im_simulator.Prf
use rv32im_simulator.Prf.{Prf}
use rv32im_simulator.Prf.Tick.{PrfInput, restore_head}
use rv32im_simulator.Prf.FreeList.{
  Free, Popped, register, initial-Free, empty-Free, pop-Free, push-Free, restore-Free,
}
use rv32im_simulator.Rob
use rv32im_simulator.Rob.{Rob}
use rv32im_simulator.Rob.Tick.{RobInput, tick}
use rv32im_simulator.Rob.Window.{Window, push-Window}
use rv32im_simulator.Rob.Cycle.{start_after, end_after, tick-Window}
use rv32im_simulator.Rat
use rv32im_simulator.Rat.{Rat}
use rv32im_simulator.Rat.Rename.{done, issue, issued_state, squash_restores}
use rv32im_simulator.Tests.Samples.{quiet, squash_at, silent_bus, packet_of, rob_entry_of}

-- The tags of these allocations lie in different epochs.
is_older-tag_of_example : is_older (tag_of 30) (tag_of 33) ≡ ltb 30 33
is_older-tag_of_example = is_older-tag_of 30 33 (omega arith) (omega arith)

empty_Window : Window Rob.initial 0 0
empty_Window = record {
  storage = refl;
  head_is = refl;
  next_is = refl;
  ordered = omega arith;
  bounded = omega arith;
  tags = λ k p q. absurd (omega arith);
}

abbrev one_entry : Rob
one_entry = Rob.push (rob_entry_of 5 3) Rob.initial

one_Window : Window one_entry 0 1
one_Window = push-Window (rob_entry_of 5 3) Rob.initial 0 0 empty_Window (omega arith)

-- A cycle that issues an instruction and squashes at the first one.
abbrev busy_cycle : RobInput
busy_cycle = record {
  squash = squash_at 0 3;
  cdb_of_alu = silent_bus;
  cdb_of_lq = silent_bus;
  cdb_of_mul = silent_bus;
  cdb_of_div = silent_bus;
  bru = [];
  sq = Sq.initial;
  packet = packet_of true 6 33 4;
}

tick-Window_example :
    Window
      (tick busy_cycle one_entry)
      (start_after busy_cycle one_entry 0)
      (end_after busy_cycle 1 0)
tick-Window_example =
    tick-Window busy_cycle one_entry 0 1 0 one_Window (λ _. omega arith)
      (λ _. (refl, omega arith, omega arith))

-- x5 goes to P32 under checkpoint 3, then x5 to P33 under checkpoint 4.
abbrev first_packet : IssuePacket
first_packet = packet_of true 5 32 3

abbrev second_packet : IssuePacket
second_packet = packet_of true 5 33 4

abbrev after_first : Rat
after_first = issued_state first_packet Rat.initial

abbrev after_second : Rat
after_second = issued_state second_packet after_first

squash_restores_example :
    Rat.tick (packet_of false 0 0 0) (squash_at 0 3) after_second
    ≡ some (record after_second { rat_prf = after_first.rat_prf })
unfolding Rat.tick Rat.initial Rat.rename Rat.set_rat_prf Rat.identity
squash_restores_example =
    squash_restores first_packet (packet_of false 0 0 0) quiet (squash_at 0 3) Rat.initial
      after_first after_second refl refl (omega arith) refl
      (issue second_packet quiet refl refl (λ e. absurd (omega arith)) refl done) refl refl refl

pop-Free_example : Popped Prf.initial 0 16 (Prf.pop Prf.initial)
pop-Free_example = pop-Free Prf.initial 0 16 initial-Free

empty-Free_example : Prf.is_free_list_empty Prf.initial ≡ (16 == 0)
empty-Free_example = empty-Free Prf.initial 0 16 initial-Free

push-Free_example :
    (next : Prf) × (Prf.push 7 Prf.initial ≡ some next)
    × Free next 0 17
    × (register next 16 ≡ 7)
    × ((k : ℕ) → 0 ≤ k → k < 16 → register next k ≡ register Prf.initial k)
push-Free_example =
    push-Free 7 Prf.initial 0 16 initial-Free (omega arith) (λ e. absurd (omega arith))

-- The head is restored to the saved sequence 0 after three registers have been taken.
abbrev three_taken : Prf
three_taken = record Prf.initial { head_seq = 3 }

three_taken-Free : Free three_taken 3 16
unfolding Prf.initial
three_taken-Free = record {
  storage = initial-Free.storage;
  head_is = refl;
  tail_is = initial-Free.tail_is;
  ordered = omega arith;
  bounded = omega arith;
}

abbrev squash_cycle : PrfInput
squash_cycle = record {
  packet = packet_of false 0 0 0;
  squash = squash_at 0 2;
  cdb_of_alu = silent_bus;
  cdb_of_lq = silent_bus;
  cdb_of_mul = silent_bus;
  cdb_of_div = silent_bus;
  rob = one_entry;
}

restore-Free_example :
    (restored : Prf) × (restore_head squash_cycle three_taken three_taken ≡ some restored)
    × Free restored 0 16
    × (restored.free_list ≡ three_taken.free_list)
unfolding Prf.initial
restore-Free_example =
    restore-Free squash_cycle three_taken three_taken 0 3 16 three_taken-Free refl refl
      (omega arith) (omega arith)
