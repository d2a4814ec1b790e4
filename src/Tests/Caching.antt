-- ===== src/Tests/Caching.antt =====
-- Tests of the data cache and of the branch predictor.
use rv32im_simulator.Prelude.{
  ◌<◌, ◌≢◌, ◌≡◌, refl, true, false, if◌then◌else◌, ◌&&◌, add32, [], ◌∷◌, replicate, arith,
}
use rv32im_simulator.Types.{MemRequest, store}
use rv32im_simulator.Memory.{Memory}
use rv32im_simulator.Arbiter.Memory.{no_request, no_decision}
use rv32im_simulator.Fetch.{no_fetch}
use rv32im_simulator.Dmem
use rv32im_simulator.Dcache.{victim_of, touch_way, no_response, find_way}
use rv32im_simulator.Dcache.Plru.{victim_of-touch_way}
use rv32im_simulator.Dcache.System.{Leftover, run, accept, at_rest}
use rv32im_simulator.Dcache.System.Hit.{Serves}
use rv32im_simulator.Dcache.System.Serve.{serve, empty_sets, empty-Sound}
use rv32im_simulator.Bpu
use rv32im_simulator.Bpu.{Bpu}
use rv32im_simulator.Bpu.Predict.{predict, btb_index, ras_last}
use rv32im_simulator.Bpu.Tick.{BpuInput}
use rv32im_simulator.Bpu.Tick
use rv32im_simulator.Bpu.Bounds.Cycle.{Fits, run-Fits}
use rv32im_simulator.Bpu.Counts.{AddsUp, run-AddsUp}
use rv32im_simulator.Bpu.Indirect.{never_trained}
use rv32im_simulator.Bpu.Rewind.Cycle.{logs, has_room}
use rv32im_simulator.Bpu.Rewind.Squash.{starts, GoesOn, Restored, squash-Restored}
use rv32im_simulator.Rob
use rv32im_simulator.Tests.Samples.{quiet, squash_at, silent_bus}

-- A memory whose bytes are their addresses.
abbrev counting : Memory
counting address = address

abbrev fresh : Leftover
fresh = record {
  load_buffer = no_response;
  hit_count = 0;
  miss_count = 0;
  read_execute = Dmem.no_read;
  read_output_buffer = [];
  write_execute = Dmem.no_write;
}

-- Two bytes to store at address 100.
abbrev half_word : MemRequest
half_word = record no_request {
  op = store;
  value = 0x1234;
  address = 100;
  n_bytes = 2;
  mem_index = 3;
}

serve_example :
    Serves half_word counting empty_sets
      (run (accept half_word ∷ replicate 22 no_decision) (at_rest counting empty_sets fresh))
unfolding find_way
serve_example =
    serve counting empty_sets fresh half_word (replicate 22 no_decision) (empty-Sound counting)
      (omega arith) (omega arith) refl

victim_of-touch_way_example : (victim_of (touch_way 2 5) ≢ 2) × (touch_way 2 5 < 8)
victim_of-touch_way_example = victim_of-touch_way 2 5 (omega arith) (omega arith)

-- A resolved branch, a fetch, and a call that was decoded in the cycle before.
abbrev call_cycle : BpuInput
call_cycle = record {
  bru =
      record { valid = true; result = record { pc_from = 200; pc_result = 212; rob_tag = 0 } } ∷ [];
  rob = Rob.initial;
  cdb_out = silent_bus;
  squash = quiet;
  decision = record no_fetch {
    valid = true;
    pc = 68;
    predicted_pc = 72;
    shift = true;
    shift_value = true;
  };
  fetch_info = record {
    valid = true;
    is_call = true;
    is_ret = false;
    jal_target_valid = true;
    pc = 64;
    jal_target = 128;
  };
}

abbrev squash_cycle : BpuInput
squash_cycle = record call_cycle { squash = squash_at 3 0 }

run-Fits_example : Fits (Tick.run (call_cycle ∷ squash_cycle ∷ []) Bpu.initial)
run-Fits_example = run-Fits (call_cycle ∷ squash_cycle ∷ [])

run-AddsUp_example : AddsUp (Tick.run (call_cycle ∷ squash_cycle ∷ []) Bpu.initial).counts
run-AddsUp_example = run-AddsUp (call_cycle ∷ squash_cycle ∷ [])

abbrev after_call : Bpu
after_call = Tick.run (call_cycle ∷ call_cycle ∷ []) Bpu.initial

never_trained_example : (predict 64 after_call).predict_pc ≡ (
    if (predict 64 after_call).taken && (predict 64 after_call).btb_hit
    then if (after_call.tgt.btb (btb_index 64)).is_ret
      then (after_call.tgt.ras (ras_last after_call.tgt)).ret_pc
      else (after_call.tgt.btb (btb_index 64)).target
    else add32 64 4)
never_trained_example = never_trained (call_cycle ∷ call_cycle ∷ []) 64

-- The return address of the call at 64 is on the stack, and the next checkpoint is the first.
abbrev before_fetch : Bpu
before_fetch = record Bpu.initial {
  tgt = record Bpu.initial.tgt { ras = λ i. record { ret_pc = 68; times = 1 }; ras_top = 1 };
  next_ckpt_id = 1;
}

-- The fetch takes checkpoint 1 while the call is scanned again, which counts its entry up.
abbrev first_cycle : BpuInput
first_cycle = record call_cycle { decision = record no_fetch { valid = true; ckpt_id = 1 } }

abbrev back_cycle : BpuInput
back_cycle = record call_cycle {
  squash = squash_at 3 1;
  decision = no_fetch;
  fetch_info = record call_cycle.fetch_info { valid = false };
}

first_cycle-GoesOn : GoesOn 0 first_cycle before_fetch
unfolding has_room logs
first_cycle-GoesOn = record { no_squash = refl; room = refl }

squash-Restored_example :
    Restored before_fetch (Tick.tick back_cycle (Tick.tick first_cycle before_fetch))
unfolding logs
squash-Restored_example =
    squash-Restored 1 before_fetch (Tick.tick first_cycle before_fetch) 1 back_cycle (omega arith)
      (omega arith) (starts first_cycle first_cycle-GoesOn refl) refl refl refl
