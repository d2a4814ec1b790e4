-- ===== src/Dcache/System/Fill.antt =====
-- The misses of the data cache of src/DCache/DCache.cpp: a line is driven out, the missing one is
-- filled in, and the request is served from it.
use rv32im_simulator.Prelude.{
  ℕ, ◌+◌, ◌<<<◌, ◌>>>◌, ◌^◌, ◌<◌, ◌≤◌, ◌≡◌, ◌≢◌, ◌⊎◌, inr, refl, sym, ap, ◌∙◌, true, false, some,
  List, ◌∷◌, length, set, u32, u64, arith,
}
use rv32im_simulator.Types.{MemRequest, MemDispatchDecision, LoadResponse, load, store}
use rv32im_simulator.Arbiter.Memory.{no_request}
use rv32im_simulator.Memory.{Memory, read_data, read_data-outside}
use rv32im_simulator.Imem.{line_bytes}
use rv32im_simulator.Lq.Tick.{is_load_op}
use rv32im_simulator.Dmem.{Dmem}
use rv32im_simulator.Dcache.{
  CacheSet, DataLine, DcachePark, mem_latency, no_response, set_index, line_tag, line_offset,
  line_at, allocate_line, touch_way,
}
use rv32im_simulator.Dcache.Access.{line_value}
use rv32im_simulator.Dcache.Tick.{finish}
use rv32im_simulator.Dcache.Ways.{matches, find_way-none, allocate_line-lt}
use rv32im_simulator.Dcache.Flat.{GoodLine, flat_in, flat_in-hit, Sound, flat, line_parts}
use rv32im_simulator.Dcache.Flat.Replace.{with_set, replaced-Sound, flat-replaced}
use rv32im_simulator.Dcache.Flat.Access.{
  read_data-flat, miss-Agree, stored-GoodLine, stored-Agree, stored_line,
}
use rv32im_simulator.Dcache.Bytes.{Agree, line_value-Agree, store_n_bytes}
use rv32im_simulator.Dcache.Evict.{evict, evict-elsewhere, evict-line, length-line_bytes}
use rv32im_simulator.Dcache.System.{MemSystem, Leftover, run, run-step, accept, at_rest, parked}
use rv32im_simulator.Dcache.System.Miss.{answered, served, run-asking}
use rv32im_simulator.Dcache.System.First.{miss-step}
use rv32im_simulator.Dcache.System.Hit.{
  Serves, memory-load, memory-store, response-load, response-store, stored-elsewhere, response_of,
  fits,
}

module _ (mem : Memory) (sets : ℕ → CacheSet) (left : Leftover) (request : MemRequest)
    (sound : Sound mem sets) (small : request.address < 2 ^ 32)
    (inside : line_offset request.address + request.n_bytes ≤ 16)
    (no_way : (w : ℕ)
      → w < length (sets (set_index request.address)).lines
      → matches (line_tag request.address) (line_at (sets (set_index request.address)).lines w)
        ≡ false) where
  abbrev addr : ℕ
  addr = request.address

  abbrev index : ℕ
  index = set_index addr

  abbrev way : ℕ
  way = allocate_line (sets index)

  abbrev victim : DataLine
  victim = line_at (sets index).lines way

  -- The memory when the victim is written.
  abbrev mem' : Memory
  mem' = evict index victim mem

  -- What the miss leaves behind.
  abbrev answer : Dmem
  answer =
      answered mem sets left (parked request way) victim.dirty (addr >>> 4 <<< 4)
        (u32 (((victim.tag <<< 10) + index) <<< 4)) victim.bytes (u64 (left.miss_count + 1)) true

  abbrev left_of : LoadResponse → Leftover
  left_of response = record {
    load_buffer = response;
    hit_count = left.hit_count;
    miss_count = u64 (left.miss_count + 1);
    read_execute = answer.read_execute;
    read_output_buffer = answer.read_output_buffer;
    write_execute = answer.write_execute;
  }

  in_sets : index < 1024
  in_sets = omega arith

  way_in : way < 4
  way_in = allocate_line-lt (sets index) (sound index in_sets).four

  none_fits : (v : ℕ) → v < 4 → matches (line_tag addr) (line_at (sets index).lines v) ≡ false
  none_fits v l = no_way v (rw (sound index in_sets).four l)

  elsewhere :
      (a : ℕ)
      → (set_index a ≢ index) ⊎ (matches (line_tag a) victim ≡ false)
      → read_data mem' a ≡ read_data mem a
  elsewhere = evict-elsewhere mem index victim ((sound index in_sets).lines way way_in) in_sets

  driven_out :
      (a : ℕ)
      → set_index a ≡ index
      → matches (line_tag a) victim ≡ true
      → line_tag a ≢ line_tag addr
      → read_data mem' a ≡ flat mem sets a
  driven_out a here m ne =
      evict-line mem index victim ((sound index in_sets).lines way way_in) in_sets a here m
      ∙ sym (flat_in-hit mem index (sets index) (sound index in_sets) a way way_in m)
      ∙ ap (λ i. flat_in mem (sets i) a) (sym here)

  -- The line that the memory gives.
  abbrev filled : DataLine
  filled = record {
    valid = true;
    dirty = false;
    bytes = line_bytes mem (addr >>> 4 <<< 4 >>> 4 <<< 4) 0 16;
    tag = line_tag addr;
  }

  filled-Agree : Agree filled.bytes (flat mem sets) addr
  filled-Agree b lb =
      let (given, seen) = miss-Agree mem sets sound addr small no_way b lb in given ∙ seen

  filled-GoodLine : GoodLine mem' index filled
  filled-GoodLine = record {
    storage = length-line_bytes mem _ 0 16;
    dirty_valid = λ e. refl;
    small = λ e. omega arith;
    clean = λ e f b lb.
        (miss-Agree mem sets sound addr small no_way b lb).0
        ∙ sym (
            elsewhere _ (
              inr (
                ap (λ tag. matches tag victim) (line_parts (line_tag addr) index b in_sets lb).0
                ∙ none_fits way way_in)));
    outside = λ e b lb past.
        (miss-Agree mem sets sound addr small no_way b lb).0
        ∙ read_data-outside mem _ (ground arith);
  }

  alone : (v : ℕ) → v < 4 → v ≢ way → matches (line_tag addr) (line_at (sets index).lines v) ≡ false
  alone v l ne = none_fits v l

  abbrev rest_of : DataLine → LoadResponse → MemSystem
  rest_of line response =
      at_rest mem'
        (with_set index
          (record {
            lines = set (sets index).lines way line;
            plru = touch_way way (sets index).plru;
          })
          sets)
        (left_of response)

  -- A miss ends with its request served from the parked form.
  miss-run :
      (decisions : List MemDispatchDecision) (park : DcachePark)
      → length decisions ≡ mem_latency + 2
      → parked request way ≡ park
      → run (accept request ∷ decisions) (at_rest mem sets left)
        ≡ some (
            served mem sets left park victim.dirty
              (addr >>> 4 <<< 4)
              (u32 (((victim.tag <<< 10) + index) <<< 4))
              victim.bytes
              (u64 (left.miss_count + 1)))
  miss-run decisions park l e =
      run-step (accept request) decisions _ _ (
        miss-step mem sets left request (fits mem sets left request sound small inside)
          (find_way-none (line_tag addr) (sets index).lines no_way))
      ∙ run-asking mem sets left (parked request way) victim.dirty (addr >>> 4 <<< 4)
          (u32 (((victim.tag <<< 10) + index) <<< 4)) victim.bytes (u64 (left.miss_count + 1))
          decisions l
      ∙ ap
          (λ p. some (
            served mem sets left p victim.dirty (addr >>> 4 <<< 4)
              (u32 (((victim.tag <<< 10) + index) <<< 4)) victim.bytes (u64 (left.miss_count + 1))))
          e

  abbrev load_park : DcachePark
  load_park = record {
    request = record no_request {
      address = addr;
      is_signed = request.is_signed;
      n_bytes = request.n_bytes;
      op = load;
      mem_index = request.mem_index;
      rob_tag = request.rob_tag;
    };
    valid = true;
    target_way = way;
  }

  abbrev store_park : DcachePark
  store_park = record {
    request = record no_request {
      address = addr;
      n_bytes = request.n_bytes;
      op = store;
      value = request.value;
      mem_index = request.mem_index;
      rob_tag = request.rob_tag;
    };
    valid = true;
    target_way = way;
  }

  parked-load : is_load_op request.op ≡ true → parked request way ≡ load_park
  parked-load is_load = rw is_load refl

  parked-store : is_load_op request.op ≡ false → parked request way ≡ store_park
  parked-store is_store = rw is_store refl

  load-run :
      (decisions : List MemDispatchDecision)
      → length decisions ≡ mem_latency + 2
      → is_load_op request.op ≡ true
      → run (accept request ∷ decisions) (at_rest mem sets left)
        ≡ some (
            rest_of filled (
              response_of mem sets left request sound small inside
                (line_value addr request.n_bytes request.is_signed filled)))
  unfolding evict finish
  load-run decisions l is_load = miss-run decisions load_park l (parked-load is_load)

  pub serve-load-miss :
      (decisions : List MemDispatchDecision)
      → length decisions ≡ mem_latency + 2
      → is_load_op request.op ≡ true
      → Serves request mem sets (run (accept request ∷ decisions) (at_rest mem sets left))
  serve-load-miss decisions l is_load =
      let same =
        line_value-Agree (flat mem sets) addr request.n_bytes request.is_signed filled small inside
          filled-Agree in
      record {
        mem' = mem';
        sets' = _;
        left' = _;
        rests = load-run decisions l is_load;
        sound =
            replaced-Sound mem mem' sets index way (touch_way way (sets index).plru) filled sound
              in_sets way_in filled-GoodLine refl alone elsewhere driven_out;
        memory = λ a.
            flat-replaced mem mem' sets index way (touch_way way (sets index).plru) filled sound
              in_sets way_in filled-GoodLine refl alone elsewhere driven_out
              (read_data (flat mem sets)) filled-Agree (λ a apart. read_data-flat mem sets sound a)
              a
            ∙ ap (λ m. read_data m a)
                (sym
                  (memory-load mem sets left request sound small inside is_load (flat mem sets)));
        response =
            ap (λ value. response_of mem sets left request sound small inside value) same
            ∙ sym (response-load mem sets left request sound small inside is_load (flat mem sets));
      }

  -- The line that a store has been served from.
  abbrev written : DataLine
  written =
      stored_line (flat mem sets) mem' addr request.value request.n_bytes filled small inside
        filled-GoodLine.storage filled-Agree

  store-run :
      (decisions : List MemDispatchDecision)
      → length decisions ≡ mem_latency + 2
      → is_load_op request.op ≡ false
      → run (accept request ∷ decisions) (at_rest mem sets left)
        ≡ some (rest_of written no_response)
  unfolding evict finish
  store-run decisions l is_store = miss-run decisions store_park l (parked-store is_store)

  pub serve-store-miss :
      (decisions : List MemDispatchDecision)
      → length decisions ≡ mem_latency + 2
      → is_load_op request.op ≡ false
      → Serves request mem sets (run (accept request ∷ decisions) (at_rest mem sets left))
  serve-store-miss decisions l is_store =
      let good =
        stored-GoodLine (flat mem sets) mem' addr request.value request.n_bytes filled small inside
          filled-GoodLine.storage filled-Agree in
      let new =
        stored-Agree (flat mem sets) mem' addr request.value request.n_bytes filled small inside
          filled-GoodLine.storage filled-Agree in
      record {
        mem' = mem';
        sets' = _;
        left' = _;
        rests = store-run decisions l is_store;
        sound =
            replaced-Sound mem mem' sets index way (touch_way way (sets index).plru) written sound
              in_sets way_in good refl alone elsewhere driven_out;
        memory = λ a.
            flat-replaced mem mem' sets index way (touch_way way (sets index).plru) written sound
              in_sets way_in good refl alone elsewhere driven_out
              (read_data (store_n_bytes addr request.value request.n_bytes 4 0 (flat mem sets))) new
              (stored-elsewhere mem sets left request sound small inside) a
            ∙ ap (λ m. read_data m a)
                (sym
                  (memory-store mem sets left request sound small inside is_store (flat mem sets)));
        response =
            sym (response-store mem sets left request sound small inside is_store (flat mem sets));
      }
