-- ===== src/Tests/Queues.antt =====
-- Tests of the buffers, rings and the store queue.
use rv32im_simulator.Prelude.{
  ℕ, ◌+◌, ◌≡◌, refl, true, false, none, some, [], ◌∷◌, ◌++◌, map, get_or, replicate, arith,
}
use rv32im_simulator.Tags.{is_older}
use rv32im_simulator.Buffer
use rv32im_simulator.Buffer.{Buffer, oldest, is_full}
use rv32im_simulator.Buffer.Entries.{entries, keep, erase_tag, entries-flush, entries-remove}
use rv32im_simulator.Buffer.Age.{IsOldest, oldest-IsOldest}
use rv32im_simulator.Alu.{AluResult, alu_tagged}
use rv32im_simulator.Ring
use rv32im_simulator.Ring.{Ring, size}
use rv32im_simulator.Ring.Contents.{IsValid, contents, contents-push, contents-pop}
use rv32im_simulator.Ring.Stream.{optional, when}
use rv32im_simulator.FetchQueue
use rv32im_simulator.FetchQueue.{FetchQueue, FetchEntry, FetchInput, fq_cap}
use rv32im_simulator.FetchQueue.Stream
use rv32im_simulator.FetchQueue.Stream.{accepted, all_accepted, all_delivered, run, entries-run}
use rv32im_simulator.Decoder.Queue
use rv32im_simulator.Decoder.Queue.{DecodeInput, UopQueue, decode_entry, head_uop, is_empty, iq_cap}
use rv32im_simulator.Decoder.Stream.{uops, uops-tick}
use rv32im_simulator.Sq
use rv32im_simulator.Sq.{Sq, SqEntry, sq_cap}
use rv32im_simulator.Sq.Forward.{reply_to_load_request}
use rv32im_simulator.Sq.Reply.{Answers, last_from, visible, reply_to_load_request-Answers}
use rv32im_simulator.Types.{ready}
use rv32im_simulator.Lq
use rv32im_simulator.Lq.{Lq, lq_cap, waits_for_memory, waits_for_bus, load_detect, cdb_detect}
use rv32im_simulator.Lq.Detect.{Nearest, NeedsMemory, NeedsBus, detect-Nearest}
use rv32im_simulator.Tests.Samples.{quiet}

abbrev result_of : ℕ → AluResult
result_of tag = record { value = 100 + tag; rob_tag = tag; is_control = false }

-- Results of the instructions with the tags 1 and 31, the second one older, and a free slot.
abbrev two_results : Buffer AluResult
two_results =
    record { valid = true; result = result_of 1 }
    ∷ record { valid = false; result = result_of 7 }
    ∷ record { valid = true; result = result_of 31 }
    ∷ []

oldest-IsOldest_example : IsOldest 30 two_results (oldest two_results)
unfolding entries
oldest-IsOldest_example =
    oldest-IsOldest 30 two_results ((omega arith, omega arith), ((omega arith, omega arith), tt))

entries-flush_example :
    entries (Buffer.flush 0 two_results)
    ≡ keep (λ (x : AluResult). is_older x.rob_tag 0) (entries two_results)
entries-flush_example = entries-flush 0 two_results

entries-remove_example : entries (Buffer.remove 31 two_results) ≡ erase_tag 31 (entries two_results)
entries-remove_example = entries-remove 31 two_results

-- A ring of four slots whose contents go round the end.
abbrev round_ring : Ring ℕ
round_ring = record { slots = 30 ∷ 40 ∷ 10 ∷ 20 ∷ []; head = 3; tail = 1 }

round_ring-IsValid : IsValid 4 round_ring
round_ring-IsValid = record { storage = refl; head_in = omega arith; tail_in = omega arith }

contents-push_example :
    contents 4 0 (Ring.push 4 50 round_ring) ≡ contents 4 0 round_ring ++ (50 ∷ [])
unfolding Ring.is_full
contents-push_example = contents-push 4 0 50 round_ring round_ring-IsValid refl

contents-pop_example :
    contents 4 0 round_ring ≡ get_or round_ring.slots 3 0 ∷ contents 4 0 (Ring.pop 4 round_ring)
unfolding Ring.is_empty
contents-pop_example = contents-pop 4 0 round_ring round_ring-IsValid refl

abbrev entry_of : ℕ → FetchEntry
entry_of pc = record { raw = 0x00a00093; pc = pc; predicted_pc = pc + 4; ckpt_id = 0 }

-- The fetch queue with one entry, and a cycle that brings another.
abbrev one_fetched : FetchQueue
one_fetched = FetchQueue.push (entry_of 0) FetchQueue.cleared

abbrev fetches : FetchInput
fetches = record {
  squash = quiet;
  returned = some (entry_of 4);
  decode_is_full = false;
  halt_fetched = false;
}

one_fetched-IsValid : IsValid fq_cap one_fetched.ring
unfolding FetchQueue.push Ring.push
one_fetched-IsValid = record { storage = refl; head_in = omega arith; tail_in = omega arith }

entries-run_example :
    all_delivered (fetches ∷ fetches ∷ []) one_fetched
      ++ FetchQueue.Stream.entries (run (fetches ∷ fetches ∷ []) one_fetched)
    ≡ FetchQueue.Stream.entries one_fetched ++ all_accepted (fetches ∷ fetches ∷ []) one_fetched
entries-run_example =
    entries-run (fetches ∷ fetches ∷ []) one_fetched (refl, (refl, tt)) one_fetched-IsValid

abbrev one_decoded : UopQueue
one_decoded = Queue.push (decode_entry (entry_of 60)) Queue.clear

abbrev issues : DecodeInput
issues = record { squash = quiet; fetch_queue = one_fetched; issue_valid = true }

one_decoded-IsValid : IsValid iq_cap one_decoded
unfolding Queue.push Ring.push
one_decoded-IsValid = record { storage = refl; head_in = omega arith; tail_in = omega arith }

uops-tick_example :
    when true (head_uop one_decoded)
      ++ uops (Queue.tick issues one_decoded)
      ++ map decode_entry (FetchQueue.Stream.entries (FetchQueue.tick fetches one_fetched))
    ≡ uops one_decoded
      ++ map decode_entry (FetchQueue.Stream.entries one_fetched)
      ++ map decode_entry (optional (accepted fetches one_fetched))
unfolding Queue.push Queue.is_full is_empty Ring.push Ring.is_full Ring.is_empty
uops-tick_example =
    uops-tick fetches issues one_decoded refl refl refl one_fetched-IsValid one_decoded-IsValid
      (λ _. refl)

-- A store with the tag 2 whose value is known, to the address 256.
abbrev one_store : Sq
one_store = record {
  slots =
      record {
        rob_tag = 2;
        address = 256;
        value = 77;
        n_bytes = 4;
        is_address_ready = true;
        is_value_ready = true;
        is_committed = false;
      }
      ∷ replicate 7 Sq.zero_store;
  head = 0;
  tail = 1;
}

reply_to_load_request-Answers_example :
    Answers
      (last_from 256 none (visible one_store 3 sq_cap 0))
      (reply_to_load_request one_store 256 3).valid
      (reply_to_load_request one_store 256 3).value
reply_to_load_request-Answers_example = reply_to_load_request-Answers one_store 256 3

-- A load queue round the end: the first load waits for the bus, the second for memory.
abbrev two_loads : Lq
two_loads = record {
  slots =
      record Lq.zero_load { rob_tag = 4; address = 8; is_address_ready = true }
        ∷ replicate 6 Lq.zero_load
      ++ (record Lq.zero_load { rob_tag = 3; is_address_ready = true; value_state = ready } ∷ []);
  head = 7;
  tail = 1;
}

detect-Nearest_example :
    Nearest NeedsMemory two_loads (load_detect two_loads)
    × Nearest NeedsBus two_loads (cdb_detect two_loads)
detect-Nearest_example = detect-Nearest two_loads (omega arith) (omega arith)
