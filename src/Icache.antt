-- ===== src/Icache.antt =====
-- The instruction cache of src/include/ICache.hpp and src/ICache/ICache.cpp: 512 lines of four
-- words, direct-mapped, and a queue of four requests.
pub mod Coherent
use rv32im_simulator.Prelude.{
  ℕ, ◌+◌, ◌-◌, ◌%◌, ◌^◌, ◌>>>◌, Bool, true, false, not, ◌&&◌, ◌==◌, ltb, if◌then◌else◌, List, [],
  map, get_or, set, replicate, low_bits, u8, u32,
}
use rv32im_simulator.Types.{SquashInfo}
use rv32im_simulator.Fetch.{FetchDecision, LineReturn}

pub record CacheLine : Type 0 where
  pub valid : Bool
  pub tag : ℕ
  pub words : List ℕ

-- `ICacheRequest`.
pub record CacheRequest : Type 0 where
  pub raw_inst : ℕ
  pub pc : ℕ
  pub predict_pc : ℕ
  pub ckpt_id : ℕ
  pub valid : Bool

-- `blocks` is the array as a function of the index, which every access masks to nine bits.
pub record Icache : Type 0 where
  pub blocks : ℕ → CacheLine
  pub request_buffer : List CacheRequest
  pub head : ℕ
  pub count : ℕ
  pub hit_count : ℕ
  pub miss_count : ℕ

-- `struct ICacheInput`.
pub record IcacheInput : Type 0 where
  pub squash : SquashInfo
  pub decision : FetchDecision
  pub pop_consume : Bool
  pub line_return : LineReturn

abbrev pub request_cap : ℕ
request_cap = 4

abbrev zero_line : CacheLine
zero_line = record { valid = false; tag = 0; words = replicate 4 0 }

abbrev pub zero_request : CacheRequest
zero_request = record { raw_inst = 0; pc = 0; predict_pc = 0; ckpt_id = 0; valid = false }

-- The constructor: all bytes zero.
abbrev pub initial : Icache
initial = record {
  blocks = λ i. zero_line;
  request_buffer = replicate request_cap zero_request;
  head = 0;
  count = 0;
  hit_count = 0;
  miss_count = 0;
}

-- `(addr >> 4) & (ICACHE_CAP - 1)`.
abbrev pub cache_index : ℕ → ℕ
cache_index addr = low_bits 9 (addr >>> 4)

abbrev pub cache_tag : ℕ → ℕ
cache_tag addr = addr >>> 13

-- `(pc >> 2) & 3`.
abbrev pub word_index : ℕ → ℕ
word_index pc = low_bits 2 (pc >>> 2)

abbrev pub head_request : Icache → CacheRequest
head_request cache = get_or cache.request_buffer cache.head zero_request

unfoldable pub is_request_full : Icache → Bool
is_request_full cache = cache.count == request_cap

unfoldable pub is_return_ready : Icache → Bool
is_return_ready cache = ltb 0 cache.count && (head_request cache).valid

abbrev pub invalid : CacheRequest → CacheRequest
invalid request = record request { valid = false }

unfoldable pub clear : Icache → Icache
clear cache = record cache {
  request_buffer = map invalid cache.request_buffer;
  head = 0;
  count = 0;
}

-- `count` is a `uint8_t`.
unfoldable pub pop : Icache → Icache
pop cache = record cache {
  request_buffer = set cache.request_buffer cache.head (invalid (head_request cache));
  head = (cache.head + 1) % request_cap;
  count = u8 (cache.count + 2 ^ 8 - 1);
}

unfoldable pub push_request : CacheRequest → Icache → Icache
push_request request cache = record cache {
  request_buffer = set cache.request_buffer ((cache.head + cache.count) % request_cap) request;
  count = u8 (cache.count + 1);
}

unfoldable pub hit : ℕ → Icache → Bool
hit addr cache =
    let line = cache.blocks (cache_index addr) in line.valid && (line.tag == cache_tag addr)

-- The word of the line that an address is mapped to.
unfoldable pub cached_word : ℕ → Icache → ℕ
cached_word addr cache = get_or (cache.blocks (cache_index addr)).words (word_index addr) 0

-- The returned line is written to the cache.
unfoldable pub fill_line : LineReturn → Icache → Icache
fill_line line cache =
    let index = cache_index line.line_addr in
    let filled : CacheLine = record {
      valid = true;
      tag = cache_tag line.line_addr;
      words = line.words;
    } in
    record cache { blocks = λ i. if i == index then filled else cache.blocks i }

-- A placeholder at the head takes its word from the returned line, whatever line it waits for.
unfoldable pub backfill : LineReturn → Icache → Icache
backfill line cache =
    let request = head_request cache in
    if ltb 0 cache.count && not request.valid
    then record cache {
      request_buffer =
          set cache.request_buffer cache.head (record request {
            raw_inst = get_or line.words (word_index request.pc) 0;
            valid = true;
          });
    }
    else cache

unfoldable pub take_line : LineReturn → Icache → Icache
unfolding fill_line backfill
take_line line cache = if line.valid then backfill line (fill_line line cache) else cache

-- The request of a fetch; the cache is the one before the tick.
unfoldable pub request_of : FetchDecision → Icache → CacheRequest
unfolding hit cached_word
request_of decision old = record {
  raw_inst = if hit decision.pc old then cached_word decision.pc old else 0;
  pc = decision.pc;
  predict_pc = decision.predicted_pc;
  ckpt_id = decision.ckpt_id;
  valid = hit decision.pc old;
}

unfoldable pub fetch : FetchDecision → Icache → Icache → Icache
unfolding push_request request_of hit
fetch decision old next =
    let pushed = push_request (request_of decision old) next in
    if not decision.valid
    then next
    else if hit decision.pc old
    then record pushed { hit_count = u32 (pushed.hit_count + 1) }
    else record pushed { miss_count = u32 (pushed.miss_count + 1) }

-- The cache after the release of its head.
unfoldable pub released : IcacheInput → Icache → Icache
unfolding pop
released input old = if input.pop_consume then pop old else old

-- `ICache::tick`.
unfoldable pub tick : IcacheInput → Icache → Icache
unfolding clear released take_line fetch
tick input old =
    if input.squash.need_squash
    then clear old
    else fetch input.decision old (take_line input.line_return (released input old))
