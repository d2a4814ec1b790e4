-- ===== src/Dcache/Access.antt =====
-- `DCache::PrRd` and `DCache::PrWr` of src/DCache/DCache.cpp.
use rv32im_simulator.Prelude.{
  ℕ, ◌+◌, ◌<<<◌, ◌>>>◌, Bool, true, false, if◌then◌else◌, leb, Option, none, some, get_or, set, u32,
}
use rv32im_simulator.Types.{load, store}
use rv32im_simulator.Dmem.{gather, extend_sign}
use rv32im_simulator.Dcache.{
  Dcache, CacheSet, DataLine, mem_latency, set_index, line_tag, line_offset, line_at, find_way,
  allocate_line, touch_way, put_bytes, change_set,
}

-- The lines that a miss asks for: the one that is missing, and room for the one that it drives out.
-- The address of the latter is built from its own tag.
unfoldable request_line : ℕ → Dcache → Dcache
unfolding allocate_line
request_line addr cache =
    let cache_set = cache.cache_sets (set_index addr) in
    let victim = line_at cache_set.lines (allocate_line cache_set) in
    let reading = record cache.request {
      read_valid = true;
      read = record { address = addr >>> 4 <<< 4; remain_cycle = mem_latency };
    } in
    record cache {
      request =
          if victim.dirty
          then record reading {
            write_valid = true;
            write = record {
              address = u32 (((victim.tag <<< 10) + set_index addr) <<< 4);
              bytes = victim.bytes;
              remain_cycle = mem_latency;
            };
          }
          else reading;
    }

unfoldable park_load : ℕ → ℕ → Bool → Dcache → Dcache
park_load addr n_bytes is_signed cache = if cache.park.valid then cache else record cache {
  park = record {
    request = record cache.park.request {
      address = addr;
      is_signed = is_signed;
      n_bytes = n_bytes;
      op = load;
    };
    valid = true;
    target_way = allocate_line (cache.cache_sets (set_index addr));
  };
}

unfoldable park_store : ℕ → ℕ → ℕ → Dcache → Dcache
park_store addr value n_bytes cache = if cache.park.valid then cache else record cache {
  park = record {
    request = record cache.park.request {
      address = addr;
      n_bytes = n_bytes;
      op = store;
      value = value;
    };
    valid = true;
    target_way = allocate_line (cache.cache_sets (set_index addr));
  };
}

-- The value of a load from the bytes of its line.
unfoldable pub line_value : ℕ → ℕ → Bool → DataLine → ℕ
line_value addr n_bytes is_signed line =
    extend_sign n_bytes is_signed
      (gather (λ i. get_or line.bytes (line_offset addr + i) 0) n_bytes 4 0 0)

-- The set after a read of one of its ways.
unfoldable pub read_way : ℕ → CacheSet → CacheSet
unfolding touch_way
read_way way cache_set = record cache_set { plru = touch_way way cache_set.plru }

-- The set after a write to one of its ways.
unfoldable pub write_way : ℕ → ℕ → ℕ → ℕ → CacheSet → CacheSet
unfolding touch_way put_bytes
write_way addr value n_bytes way cache_set =
    let line = line_at cache_set.lines way in
    record {
      lines =
          set cache_set.lines way
            (record line { dirty = true; bytes = put_bytes addr value n_bytes 4 0 line.bytes });
      plru = touch_way way cache_set.plru;
    }

-- The cache after a read and, on a hit, the value. The outer `none` is the failed assertion on an
-- access across the end of a line.
unfoldable pub pr_rd : ℕ → ℕ → Bool → Dcache → Option (Dcache × Option ℕ)
unfolding find_way read_way line_value park_load request_line
pr_rd addr n_bytes is_signed cache =
    let cache_set = cache.cache_sets (set_index addr) in
    if leb (line_offset addr + n_bytes) 16
    then elim (find_way (line_tag addr) cache_set.lines 0 none) [
      | some way ↦ some (
        change_set (set_index addr) (read_way way cache_set) cache,
        some (line_value addr n_bytes is_signed (line_at cache_set.lines way)),
      )
      | none ↦ some (request_line addr (park_load addr n_bytes is_signed cache), none)
    ]
    else none

-- The cache after a write, and whether it was a hit.
unfoldable pub pr_wr : ℕ → ℕ → ℕ → Dcache → Option (Dcache × Bool)
unfolding find_way write_way park_store request_line
pr_wr addr value n_bytes cache =
    let cache_set = cache.cache_sets (set_index addr) in
    if leb (line_offset addr + n_bytes) 16
    then elim (find_way (line_tag addr) cache_set.lines 0 none) [
      | some way ↦
          some
            (change_set (set_index addr) (write_way addr value n_bytes way cache_set) cache, true)
      | none ↦ some (request_line addr (park_store addr value n_bytes cache), false)
    ]
    else none
