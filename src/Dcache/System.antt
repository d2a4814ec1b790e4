-- ===== src/Dcache/System.antt =====
-- The data cache and the data memory in the processor's cycle (`CPU::comb` and the two ticks of
-- src/CPU/CPU.cpp), and the states of a miss.
pub mod Miss
pub mod First
pub mod Hit
pub mod Fill
pub mod Serve
use rv32im_simulator.Prelude.{
  ℕ, ◌+◌, ◌<<<◌, ◌>>>◌, Bool, true, false, if◌then◌else◌, ◌≡◌, refl, Option, none, some, List, [],
  ◌∷◌, u32, u64,
}
use rv32im_simulator.Types.{MemRequest, MemDispatchDecision, LoadResponse, load, store}
use rv32im_simulator.Memory.{Memory}
use rv32im_simulator.Arbiter.Memory.{no_request}
use rv32im_simulator.Lq.Tick.{is_load_op}
use rv32im_simulator.Dmem
use rv32im_simulator.Dmem.{Dmem, DmemRequest, ReadRequest, WriteRequest}
use rv32im_simulator.Dcache
use rv32im_simulator.Dcache.{
  Dcache, CacheSet, DcachePark, DataLine, ready, wait, no_park, no_response, mem_latency, set_index,
}
use rv32im_simulator.Dcache.Tick

pub record MemSystem : Type 0 where
  pub cache : Dcache
  pub dmem : Dmem

-- One cycle: the memory takes the request that the cache made in the cycle before.
unfoldable pub step : MemDispatchDecision → MemSystem → Option MemSystem
unfolding Tick.tick Dmem.tick
step decision s = elim (Tick.tick (record { decision = decision; dmem = s.dmem }) s.cache) [
  | none ↦ none
  | some cache ↦ some (record { cache = cache; dmem = Dmem.tick s.cache.request s.dmem })
]

-- Several cycles with their decisions.
unfoldable pub run : List MemDispatchDecision → MemSystem → Option MemSystem
run [] s = some s
run (decision ∷ rest) s = elim (step decision s) [ none ↦ none | some next ↦ run rest next ]

pub run-step :
    (decision : MemDispatchDecision) (rest : List MemDispatchDecision) (s next : MemSystem)
    → step decision s ≡ some next
    → run (decision ∷ rest) s ≡ run rest next
unfolding run
run-step decision rest s next e = rw (e, run) refl

abbrev pub accept : MemRequest → MemDispatchDecision
accept request = record { valid = true; request = request }

-- What earlier requests leave behind in a system at rest.
pub record Leftover : Type 0 where
  pub load_buffer : LoadResponse
  pub hit_count : ℕ
  pub miss_count : ℕ
  pub read_execute : ReadRequest
  pub read_output_buffer : List ℕ
  pub write_execute : WriteRequest

-- A system with no request under way.
abbrev pub at_rest : Memory → (ℕ → CacheSet) → Leftover → MemSystem
at_rest mem sets left = record {
  cache = record {
    busy = false;
    phase = ready;
    cache_sets = sets;
    park = no_park;
    load_buffer = left.load_buffer;
    request = Dmem.no_request;
    hit_count = left.hit_count;
    miss_count = left.miss_count;
  };
  dmem = record {
    mem = mem;
    read_busy = false;
    read_buffer_valid = false;
    write_busy = false;
    read_execute = left.read_execute;
    read_output_buffer = left.read_output_buffer;
    write_execute = left.write_execute;
  };
}

-- The parked form of a request.
abbrev pub parked : MemRequest → ℕ → DcachePark
parked request way = record {
  request =
      if is_load_op request.op
      then record no_request {
        address = request.address;
        is_signed = request.is_signed;
        n_bytes = request.n_bytes;
        op = load;
        mem_index = request.mem_index;
        rob_tag = request.rob_tag;
      }
      else record no_request {
        address = request.address;
        n_bytes = request.n_bytes;
        op = store;
        value = request.value;
        mem_index = request.mem_index;
        rob_tag = request.rob_tag;
      };
  valid = true;
  target_way = way;
}

-- The lines that a miss asks for, of which `dirty` tells whether there is one to write.
abbrev pub miss_request : Bool → ℕ → ℕ → List ℕ → DmemRequest
miss_request dirty base victim_base bytes =
    if dirty
    then record {
      read_valid = true;
      read = record { address = base; remain_cycle = mem_latency };
      write_valid = true;
      write = record { address = victim_base; bytes = bytes; remain_cycle = mem_latency };
    }
    else record {
      read_valid = true;
      read = record { address = base; remain_cycle = mem_latency };
      write_valid = false;
      write = Dmem.no_write;
    }
