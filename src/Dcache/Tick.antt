-- ===== src/Dcache/Tick.antt =====
-- `DCache::tick` of src/DCache/DCache.cpp. The check of a clean hit against the memory that a debug
-- build makes is left out.
use rv32im_simulator.Prelude.{
  ◌+◌, true, false, not, ◌&&◌, ◌||◌, if◌then◌else◌, Option, none, some, set, u64,
}
use rv32im_simulator.Types.{SquashInfo, MemRequest, MemDispatchDecision, LoadResponse}
use rv32im_simulator.Tags.{survives}
use rv32im_simulator.Lq.Tick.{is_load_op}
use rv32im_simulator.Sq.Tick.{is_store_op}
use rv32im_simulator.Dmem
use rv32im_simulator.Dmem.{Dmem}
use rv32im_simulator.Dcache.{
  Dcache, DataLine, CacheSet, DcachePark, ready, wait, no_response, no_park, set_index, line_tag,
  touch_way, put_bytes, change_set,
}
use rv32im_simulator.Dcache.Access.{pr_rd, pr_wr, line_value}

-- `struct DCacheInput`.
pub record DcacheInput : Type 0 where
  pub decision : MemDispatchDecision
  pub dmem : Dmem

-- `loadResp`: a response that a squash kills is not given.
unfoldable pub load_resp : SquashInfo → Dcache → LoadResponse
load_resp squash cache =
    if cache.load_buffer.valid && survives squash cache.load_buffer.rob_tag
    then cache.load_buffer
    else no_response

-- Request and response last one cycle.
abbrev pub quiet : Dcache → Dcache
quiet old = record old { request = Dmem.no_request; load_buffer = no_response }

abbrev count_hit : Dcache → Dcache
count_hit cache = record cache { hit_count = u64 (cache.hit_count + 1) }

-- A miss: the parked request gets its place in the queues, and the cache waits.
unfoldable start_wait : MemRequest → Dcache → Dcache
start_wait request cache = record cache {
  miss_count = u64 (cache.miss_count + 1);
  park = record cache.park {
    request = record cache.park.request {
      mem_index = request.mem_index;
      rob_tag = request.rob_tag;
    };
  };
  busy = true;
  phase = wait;
}

unfoldable accept_load : MemRequest → Dcache → Option Dcache
unfolding start_wait
accept_load request cache = elim (pr_rd request.address request.n_bytes request.is_signed cache) [
  | none ↦ none
  | some (next, some value) ↦ some (record (count_hit next) {
    load_buffer = record {
      valid = true;
      mem_index = request.mem_index;
      rob_tag = request.rob_tag;
      value = value;
    };
  })
  | some (next, none) ↦ some (start_wait request next)
]

unfoldable accept_store : MemRequest → Dcache → Option Dcache
unfolding start_wait
accept_store request cache = elim (pr_wr request.address request.value request.n_bytes cache) [
  | none ↦ none
  | some (next, true) ↦ some (count_hit next)
  | some (next, false) ↦ some (start_wait request next)
]

-- The line that the memory answers with.
abbrev filled_line : DcachePark → Dmem → DataLine
filled_line park dmem = record {
  valid = true;
  dirty = false;
  bytes = dmem.read_output_buffer;
  tag = line_tag park.request.address;
}

-- The line after the parked request: a store is written to it.
unfoldable served_line : DcachePark → Dmem → DataLine
unfolding put_bytes
served_line park dmem =
    let line = filled_line park dmem in
    let request = park.request in
    if is_store_op request.op
    then record line {
      dirty = true;
      bytes = put_bytes request.address request.value request.n_bytes 4 0 line.bytes;
    }
    else line

unfoldable served_set : DcachePark → Dmem → CacheSet → CacheSet
unfolding served_line touch_way
served_set park dmem cache_set = record {
  lines = set cache_set.lines park.target_way (served_line park dmem);
  plru = touch_way park.target_way cache_set.plru;
}

-- The response to the parked request, if it is a load.
unfoldable served_load : DcachePark → Dmem → LoadResponse
unfolding line_value
served_load park dmem =
    let request = park.request in
    if is_store_op request.op then no_response else record {
      valid = true;
      mem_index = request.mem_index;
      rob_tag = request.rob_tag;
      value = line_value request.address request.n_bytes request.is_signed (filled_line park dmem);
    }

-- The end of a miss.
unfoldable pub finish : Dmem → Dcache → Dcache
unfolding served_set served_load
finish dmem old =
    let index = set_index old.park.request.address in
    let filled = change_set index (served_set old.park dmem (old.cache_sets index)) (quiet old) in
    record filled {
      load_buffer = served_load old.park dmem;
      park = no_park;
      busy = false;
      phase = ready;
    }

-- `DCache::tick`; `none` is a failed assertion.
unfoldable pub tick : DcacheInput → Dcache → Option Dcache
unfolding accept_load accept_store finish
tick input old = elim old.phase [
  | ready ↦
      if not input.decision.valid
      then some (quiet old)
      else if input.dmem.read_busy || input.dmem.write_busy
      then none
      else if is_load_op input.decision.request.op
      then accept_load input.decision.request (quiet old)
      else accept_store input.decision.request (quiet old)
  | wait ↦
      if input.dmem.read_buffer_valid && not input.dmem.write_busy
      then some (finish input.dmem old)
      else some (quiet old)
]
