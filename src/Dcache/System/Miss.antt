-- ===== src/Dcache/System/Miss.antt =====
-- The cycles of a miss, from the request of the data cache to the answer of the data memory.
use rv32im_simulator.Prelude.{
  ℕ, zero, suc, ◌+◌, ◌^◌, ◌<<<◌, ◌>>>◌, ◌<◌, ◌≡◌, refl, ◌∙◌, Bool, true, false, ◌==◌, if◌then◌else◌,
  some, List, [], ◌∷◌, length, sub32, arith,
}
use rv32im_simulator.Types.{MemDispatchDecision}
use rv32im_simulator.Memory.{Memory}
use rv32im_simulator.Imem.{line_bytes}
use rv32im_simulator.Dmem
use rv32im_simulator.Dmem.{Dmem, DmemRequest, write_line}
use rv32im_simulator.Dcache.{Dcache, CacheSet, DcachePark, wait, no_response, mem_latency}
use rv32im_simulator.Dcache.Tick
use rv32im_simulator.Dcache.System.{MemSystem, Leftover, step, run, run-step, at_rest, miss_request}

module _ (mem : Memory) (sets : ℕ → CacheSet) (left : Leftover) (park : DcachePark) (dirty : Bool)
    (base victim_base : ℕ) (bytes : List ℕ) (misses : ℕ) where
  -- The cache with a request parked and another one for the memory.
  abbrev waiting_cache : DmemRequest → Dcache
  waiting_cache request = record {
    busy = true;
    phase = wait;
    cache_sets = sets;
    park = park;
    load_buffer = no_response;
    request = request;
    hit_count = left.hit_count;
    miss_count = misses;
  }

  -- The memory with `k` cycles left to work.
  abbrev working : ℕ → Dmem
  working k = record {
    mem = mem;
    read_busy = true;
    read_buffer_valid = false;
    write_busy = dirty;
    read_execute = record { remain_cycle = k; address = base };
    read_output_buffer = left.read_output_buffer;
    write_execute =
        if dirty
        then record { remain_cycle = k; address = victim_base; bytes = bytes }
        else left.write_execute;
  }

  -- The memory when it answers: the line is the one before the write of the evicted line.
  abbrev pub answered : Bool → Dmem
  answered valid = record {
    mem = if dirty then write_line victim_base bytes 0 mem else mem;
    read_busy = false;
    read_buffer_valid = valid;
    write_busy = false;
    read_execute = record { remain_cycle = 1; address = base };
    read_output_buffer = line_bytes mem (base >>> 4 <<< 4) 0 16;
    write_execute =
        if dirty
        then record { remain_cycle = 1; address = victim_base; bytes = bytes }
        else left.write_execute;
  }

  -- The system in a miss with `k` cycles left.
  abbrev in_miss : ℕ → MemSystem
  in_miss k = record { cache = waiting_cache Dmem.no_request; dmem = working k }

  -- The system when a miss has asked for its lines.
  abbrev pub asking : MemSystem
  asking = record {
    cache = waiting_cache (miss_request dirty base victim_base bytes);
    dmem = (at_rest mem sets left).dmem;
  }

  -- The system when a miss is served.
  abbrev pub served : MemSystem
  served = record {
    cache = Tick.finish (answered true) (waiting_cache Dmem.no_request);
    dmem = answered false;
  }

asking-step :
    (mem : Memory) (sets : ℕ → CacheSet) (left : Leftover) (park : DcachePark) (dirty : Bool)
    (base victim_base : ℕ) (bytes : List ℕ) (misses : ℕ) (decision : MemDispatchDecision)
    → step decision (asking mem sets left park dirty base victim_base bytes misses)
      ≡ some (in_miss mem sets left park dirty base victim_base bytes misses 20)
unfolding step
asking-step mem sets left park true base victim_base bytes misses decision = refl
asking-step mem sets left park false base victim_base bytes misses decision = refl

working-step :
    (mem : Memory) (sets : ℕ → CacheSet) (left : Leftover) (park : DcachePark) (dirty : Bool)
    (base victim_base : ℕ) (bytes : List ℕ) (misses : ℕ) (decision : MemDispatchDecision)
    (k rest : ℕ)
    → sub32 k 1 ≡ rest
    → (rest == 0) ≡ false
    → step decision (in_miss mem sets left park dirty base victim_base bytes misses k)
      ≡ some (in_miss mem sets left park dirty base victim_base bytes misses rest)
unfolding step
working-step mem sets left park true base victim_base bytes misses decision k rest e nonzero =
    rw (e, nonzero) refl
working-step mem sets left park false base victim_base bytes misses decision k rest e nonzero =
    rw (e, nonzero) refl

answer-step :
    (mem : Memory) (sets : ℕ → CacheSet) (left : Leftover) (park : DcachePark) (dirty : Bool)
    (base victim_base : ℕ) (bytes : List ℕ) (misses : ℕ) (decision : MemDispatchDecision)
    → step decision (in_miss mem sets left park dirty base victim_base bytes misses 1)
      ≡ some (record {
        cache =
            waiting_cache mem sets left park dirty base victim_base bytes misses Dmem.no_request;
        dmem = answered mem sets left park dirty base victim_base bytes misses true;
      })
unfolding step
answer-step mem sets left park true base victim_base bytes misses decision = refl
answer-step mem sets left park false base victim_base bytes misses decision = refl

served-step :
    (mem : Memory) (sets : ℕ → CacheSet) (left : Leftover) (park : DcachePark) (dirty : Bool)
    (base victim_base : ℕ) (bytes : List ℕ) (misses : ℕ) (decision : MemDispatchDecision)
    → step decision (record {
      cache = waiting_cache mem sets left park dirty base victim_base bytes misses Dmem.no_request;
      dmem = answered mem sets left park dirty base victim_base bytes misses true;
    })
      ≡ some (served mem sets left park dirty base victim_base bytes misses)
unfolding step
served-step mem sets left park dirty base victim_base bytes misses decision = refl

pub run_end : (s : MemSystem) → run [] s ≡ some s
unfolding run
run_end s = refl

-- From `k + 1` cycles left, `k + 2` cycles serve the miss, whatever the decisions.
run-in_miss :
    (mem : Memory) (sets : ℕ → CacheSet) (left : Leftover) (park : DcachePark) (dirty : Bool)
    (base victim_base : ℕ) (bytes : List ℕ) (misses : ℕ) (decisions : List MemDispatchDecision)
    (k : ℕ)
    → k < 2 ^ 31
    → length decisions ≡ k + 2
    → run decisions (in_miss mem sets left park dirty base victim_base bytes misses (suc k))
      ≡ some (served mem sets left park dirty base victim_base bytes misses)
run-in_miss mem sets left park dirty base victim_base bytes misses [] k small l =
    absurd (omega arith)
run-in_miss mem sets left park dirty base victim_base bytes misses (d ∷ []) k small l =
    absurd (omega arith)
run-in_miss mem sets left park dirty base victim_base bytes misses (d ∷ e ∷ []) zero small l =
    run-step d (e ∷ []) _ _ (answer-step mem sets left park dirty base victim_base bytes misses d)
    ∙ run-step e [] _ _ (served-step mem sets left park dirty base victim_base bytes misses e)
    ∙ run_end _
run-in_miss mem sets left park dirty base victim_base bytes misses (d ∷ e ∷ f ∷ rest) zero small l =
    absurd (omega arith)
run-in_miss mem sets left park dirty base victim_base bytes misses (d ∷ e ∷ rest) (suc k) small l =
    run-step d (e ∷ rest) _ _ (
      working-step mem sets left park dirty base victim_base bytes misses d (suc (suc k)) (suc k)
        (omega arith) (ground arith))
    ∙ run-in_miss mem sets left park dirty base victim_base bytes misses (e ∷ rest) k (omega arith)
        (omega arith)

-- A miss that has asked for its lines is served after `mem_latency + 2` cycles.
pub run-asking :
    (mem : Memory) (sets : ℕ → CacheSet) (left : Leftover) (park : DcachePark) (dirty : Bool)
    (base victim_base : ℕ) (bytes : List ℕ) (misses : ℕ) (decisions : List MemDispatchDecision)
    → length decisions ≡ mem_latency + 2
    → run decisions (asking mem sets left park dirty base victim_base bytes misses)
      ≡ some (served mem sets left park dirty base victim_base bytes misses)
run-asking mem sets left park dirty base victim_base bytes misses [] l = absurd (omega arith)
run-asking mem sets left park dirty base victim_base bytes misses (d ∷ rest) l =
    run-step d rest _ _ (asking-step mem sets left park dirty base victim_base bytes misses d)
    ∙ run-in_miss mem sets left park dirty base victim_base bytes misses rest 19 (omega arith)
        (omega arith)
