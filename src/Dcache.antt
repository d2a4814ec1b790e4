-- ===== src/Dcache.antt =====
-- The data cache of src/include/DCache.hpp and src/DCache/DCache.cpp: 1024 sets of four lines of sixteen
-- bytes, written back on eviction, with a tree of bits that tells the way to evict.
pub mod Access
pub mod Ways
pub mod Plru
pub mod Flat
pub mod Bytes
pub mod Evict
pub mod System
pub mod Tick
use rv32im_simulator.Prelude.{
  ℕ, zero, suc, ◌+◌, ◌*◌, ◌<<<◌, ◌>>>◌, ◌%◌, ◌^◌, bit_or, bit_and, Bool, true, false, not, ◌&&◌,
  ◌==◌, ltb, if◌then◌else◌, Option, none, some, List, [], ◌∷◌, get_or, set, replicate, low_bits,
  u32,
}
use rv32im_simulator.Types.{MemRequest, LoadResponse}
use rv32im_simulator.Memory.{mem_size}
use rv32im_simulator.Arbiter.Memory.{no_request}
use rv32im_simulator.Dmem
use rv32im_simulator.Dmem.{DmemRequest}

-- `DCachePark`, the request that waits for its line.
pub record DcachePark : Type 0 where
  pub request : MemRequest
  pub valid : Bool
  pub target_way : ℕ

-- `Cacheline`.
pub record DataLine : Type 0 where
  pub valid : Bool
  pub dirty : Bool
  pub bytes : List ℕ
  pub tag : ℕ

pub record CacheSet : Type 0 where
  pub lines : List DataLine
  pub plru : ℕ

pub data Phase : Type 0 where
  ready wait : Phase

-- `cacheSets` is the array as a function of the index, which every access masks to ten bits.
pub record Dcache : Type 0 where
  pub busy : Bool
  pub phase : Phase
  pub cache_sets : ℕ → CacheSet
  pub park : DcachePark
  pub load_buffer : LoadResponse
  pub request : DmemRequest
  pub hit_count : ℕ
  pub miss_count : ℕ

abbrev pub num_of_ways : ℕ
num_of_ways = 4

abbrev pub mem_latency : ℕ
mem_latency = 20

abbrev pub empty_line : DataLine
empty_line = record { valid = false; dirty = false; bytes = replicate 16 0; tag = 0 }

abbrev pub no_response : LoadResponse
no_response = record { valid = false; mem_index = 0; rob_tag = 0; value = 0 }

abbrev pub no_park : DcachePark
no_park = record { request = no_request; valid = false; target_way = 0 }

-- The constructor: all bytes zero.
abbrev pub initial : Dcache
initial = record {
  busy = false;
  phase = ready;
  cache_sets = λ index. record { lines = replicate num_of_ways empty_line; plru = 0 };
  park = no_park;
  load_buffer = no_response;
  request = Dmem.no_request;
  hit_count = 0;
  miss_count = 0;
}

-- `(addr >> 4) & (NUM_OF_SETS - 1)`.
abbrev pub set_index : ℕ → ℕ
set_index addr = low_bits 10 (addr >>> 4)

-- `addr >> DCACHE_TAG_SHIFT`.
abbrev pub line_tag : ℕ → ℕ
line_tag addr = addr >>> 14

-- `addr & 0xF`.
abbrev pub line_offset : ℕ → ℕ
line_offset addr = low_bits 4 addr

abbrev pub line_at : List DataLine → ℕ → DataLine
line_at lines way = get_or lines way empty_line

-- The loop over the ways that looks for a tag: the last one that fits.
unfoldable pub find_way : ℕ → List DataLine → ℕ → Option ℕ → Option ℕ
find_way tag [] i found = found
find_way tag (line ∷ rest) i found =
    find_way tag rest (suc i) (if (line.tag == tag) && line.valid then some i else found)

-- The loop that looks for the first invalid way.
unfoldable pub first_invalid : List DataLine → ℕ → Option ℕ → Option ℕ
first_invalid [] i found = found
first_invalid (line ∷ rest) i none =
    first_invalid rest (suc i) (if line.valid then none else some i)
first_invalid (line ∷ rest) i (some way) = first_invalid rest (suc i) (some way)

-- The way that the tree of bits tells.
unfoldable pub victim_of : ℕ → ℕ
victim_of plru =
    if not (bit_and plru 4 == 0)
    then if not (bit_and plru 1 == 0) then 3 else 2
    else if not (bit_and plru 2 == 0)
    then 1
    else 0

unfoldable pub allocate_line : CacheSet → ℕ
unfolding first_invalid victim_of
allocate_line cache_set = elim (first_invalid cache_set.lines 0 none) [
  | some way ↦ way
  | none ↦ victim_of cache_set.plru
]

-- The bits after an access to a way; `& ~0x4` keeps the other bits of the byte.
unfoldable pub touch_way : ℕ → ℕ → ℕ
touch_way way plru =
    let rooted = if ltb way 2 then bit_or plru 4 else bit_and plru 0xFB in
    if way == 0
    then bit_or rooted 2
    else if way == 1
    then bit_and rooted 0xFD
    else if way == 2
    then bit_or rooted 1
    else bit_and rooted 0xFE

-- The loop that writes the low `n` bytes of a value into a line; bytes past the memory are left.
unfoldable pub put_bytes : ℕ → ℕ → ℕ → ℕ → ℕ → List ℕ → List ℕ
put_bytes addr value n zero i bytes = bytes
put_bytes addr value n (suc rounds) i bytes = put_bytes addr value n rounds (suc i) (
    if ltb i n && ltb (u32 (addr + i)) mem_size
    then set bytes (line_offset addr + i) ((value >>> (i * 8)) % 2 ^ 8)
    else bytes)

-- The sets with one of them changed.
abbrev pub change_set : ℕ → CacheSet → Dcache → Dcache
change_set index cache_set cache = record cache {
  cache_sets = λ i. if i == index then cache_set else cache.cache_sets i;
}
