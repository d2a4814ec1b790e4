-- ===== src/Dcache/System/Hit.antt =====
-- The hits of the data cache of src/DCache/DCache.cpp, and what it means to serve a request as a flat
-- memory does.
use rv32im_simulator.Prelude.{
  ℕ, ◌+◌, ◌^◌, ◌<◌, ◌≤◌, ◌≡◌, ◌≢◌, ◌⊎◌, refl, sym, ap, ◌∙◌, true, false, leb, if◌then◌else◌, Option,
  none, some, set, arith,
}
use rv32im_simulator.Types.{MemRequest, LoadResponse}
use rv32im_simulator.Memory.{Memory, read_data}
use rv32im_simulator.Lq.Tick.{is_load_op}
use rv32im_simulator.Dmem.{load_n_bytes}
use rv32im_simulator.Dcache.{
  CacheSet, mem_latency, no_response, set_index, line_tag, line_offset, line_at, find_way,
  touch_way,
}
use rv32im_simulator.Dcache.Access.{read_way, write_way}
use rv32im_simulator.Dcache.Ways.{matches}
use rv32im_simulator.Dcache.Flat.{only_way, Sound, flat}
use rv32im_simulator.Dcache.Flat.Replace.{with_set, replaced-Sound, flat-replaced}
use rv32im_simulator.Dcache.Flat.Access.{
  read_data-flat, hit-Agree, touched-Sound, flat-touched, stored-GoodLine, stored-Agree,
  stored_line,
}
use rv32im_simulator.Dcache.Bytes.{line_value-Agree, store_n_bytes, store_n_bytes-other}
use rv32im_simulator.Dcache.System.{MemSystem, Leftover, step, accept, at_rest}
use rv32im_simulator.Dcache.System.First.{after_load, after_store, load-hit-step, store-hit-step}

-- The flat memory after a request, and the response to it.
abbrev memory_after : MemRequest → Memory → Memory
memory_after request mem =
    if is_load_op request.op
    then mem
    else store_n_bytes request.address request.value request.n_bytes 4 0 mem

abbrev response_to : MemRequest → Memory → LoadResponse
response_to request mem =
    if is_load_op request.op
    then record {
      valid = true;
      mem_index = request.mem_index;
      rob_tag = request.rob_tag;
      value = load_n_bytes mem request.address request.n_bytes request.is_signed;
    }
    else no_response

-- The cycles after the first one that a request takes.
abbrev pub latency : (ℕ → CacheSet) → MemRequest → ℕ
latency sets request =
    elim (find_way (line_tag request.address) (sets (set_index request.address)).lines 0 none) [
      | some way ↦ 0
      | none ↦ mem_latency + 2
    ]

-- The system is at rest again and sound, its flat memory is that after the request, and its response is
-- the one of the flat memory.
pub record Serves (request : MemRequest) (mem : Memory) (sets : ℕ → CacheSet)
    (result : Option MemSystem) : Type 0 where
  pub mem' : Memory
  pub sets' : ℕ → CacheSet
  pub left' : Leftover
  pub rests : result ≡ some (at_rest mem' sets' left')
  pub sound : Sound mem' sets'
  pub memory :
      (addr : ℕ) → flat mem' sets' addr ≡ read_data (memory_after request (flat mem sets)) addr
  pub response : left'.load_buffer ≡ response_to request (flat mem sets)

module _ (mem : Memory) (sets : ℕ → CacheSet) (left : Leftover) (request : MemRequest)
    (sound : Sound mem sets) (small : request.address < 2 ^ 32)
    (inside : line_offset request.address + request.n_bytes ≤ 16) where
  abbrev addr : ℕ
  addr = request.address

  abbrev index : ℕ
  index = set_index addr

  pub fits : leb (line_offset addr + request.n_bytes) 16 ≡ true
  fits = ground arith

  abbrev pub response_of : ℕ → LoadResponse
  response_of value = record {
    valid = true;
    mem_index = request.mem_index;
    rob_tag = request.rob_tag;
    value = value;
  }

  pub memory-load : is_load_op request.op ≡ true → (mem : Memory) → memory_after request mem ≡ mem
  memory-load is_load mem = rw is_load refl

  pub response-load :
      is_load_op request.op ≡ true
      → (mem : Memory)
      → response_to request mem
        ≡ response_of (load_n_bytes mem addr request.n_bytes request.is_signed)
  response-load is_load mem = rw is_load refl

  pub memory-store :
      is_load_op request.op ≡ false
      → (mem : Memory)
      → memory_after request mem ≡ store_n_bytes addr request.value request.n_bytes 4 0 mem
  memory-store is_store mem = rw is_store refl

  pub response-store :
      is_load_op request.op ≡ false → (mem : Memory) → response_to request mem ≡ no_response
  response-store is_store mem = rw is_store refl

  pub serve-load-hit :
      (w : ℕ)
      → w < 4
      → is_load_op request.op ≡ true
      → matches (line_tag addr) (line_at (sets index).lines w) ≡ true
      → find_way (line_tag addr) (sets index).lines 0 none ≡ some w
      → Serves request mem sets (step (accept request) (at_rest mem sets left))
  unfolding read_way
  serve-load-hit w lw is_load m found =
      let agree = hit-Agree mem sets sound addr w lw m in
      let same =
        line_value-Agree (flat mem sets) addr request.n_bytes request.is_signed
          (line_at (sets index).lines w) small inside agree in
      record {
        mem' = mem;
        sets' = with_set index (read_way w (sets index)) sets;
        left' = after_load request _ left;
        rests = load-hit-step mem sets left request fits w is_load found;
        sound = touched-Sound mem sets sound index _;
        memory = λ a.
            flat-touched mem sets sound index _ a
            ∙ sym (read_data-flat mem sets sound a)
            ∙ ap (λ m. read_data m a) (sym (memory-load is_load (flat mem sets)));
        response =
            ap (λ value. response_of value) same ∙ sym (response-load is_load (flat mem sets));
      }

  -- The memory after a store, away from the line that it writes.
  pub stored-elsewhere :
      (other : ℕ)
      → (set_index other ≢ index) ⊎ (line_tag other ≢ line_tag addr)
      → read_data (store_n_bytes addr request.value request.n_bytes 4 0 (flat mem sets)) other
        ≡ flat mem sets other
  stored-elsewhere other apart =
      store_n_bytes-other addr request.value request.n_bytes 4 0 (flat mem sets) other small inside
        apart
      ∙ read_data-flat mem sets sound other

  pub in_sets : index < 1024
  in_sets = omega arith

  -- A way that fits is the only one.
  alone_way :
      (w : ℕ)
      → w < 4
      → matches (line_tag addr) (line_at (sets index).lines w) ≡ true
      → (v : ℕ) → v < 4
      → v ≢ w
      → matches (line_tag addr) (line_at (sets index).lines v) ≡ false
  alone_way w lw m v lv ne =
      only_way mem index (sets index) (sound index in_sets) (line_tag addr) w v lw lv
        (λ e. ne (sym e)) m

  -- No other line is driven out by a hit.
  unmoved :
      (w : ℕ)
      → matches (line_tag addr) (line_at (sets index).lines w) ≡ true
      → (a : ℕ) → set_index a ≡ index
      → matches (line_tag a) (line_at (sets index).lines w) ≡ true
      → line_tag a ≢ line_tag addr
      → read_data mem a ≡ flat mem sets a
  unmoved w m a here m' ne =
      let same : line_tag a ≡ line_tag addr = ground arith in absurd (ne same)

  pub serve-store-hit :
      (w : ℕ)
      → w < 4
      → is_load_op request.op ≡ false
      → matches (line_tag addr) (line_at (sets index).lines w) ≡ true
      → find_way (line_tag addr) (sets index).lines 0 none ≡ some w
      → Serves request mem sets (step (accept request) (at_rest mem sets left))
  unfolding write_way
  serve-store-hit w lw is_store m found =
      let old = line_at (sets index).lines w in
      let plru = touch_way w (sets index).plru in
      let agree = hit-Agree mem sets sound addr w lw m in
      let storage = ((sound index in_sets).lines w lw).storage in
      let line =
        stored_line (flat mem sets) mem addr request.value request.n_bytes old small inside storage
          agree in
      let line_good =
        stored-GoodLine (flat mem sets) mem addr request.value request.n_bytes old small inside
          storage agree in
      let new =
        stored-Agree (flat mem sets) mem addr request.value request.n_bytes old small inside storage
          agree in
      let old_valid : old.valid ≡ true = ground arith in
      let old_tag : old.tag ≡ line_tag addr = ground arith in
      let written : record old { dirty = true; bytes = line.bytes } ≡ line =
        λ i. record { valid = old_valid i; dirty = true; bytes = line.bytes; tag = old_tag i } in
      record {
        mem' = mem;
        sets' = with_set index (record { lines = set (sets index).lines w line; plru = plru }) sets;
        left' = after_store left;
        rests =
            store-hit-step mem sets left request fits w is_store found
            ∙ ap
                (λ l. some (
                  at_rest mem
                    (with_set index (record { lines = set (sets index).lines w l; plru = plru })
                      sets)
                    (after_store left)))
                written;
        sound =
            replaced-Sound mem mem sets index w plru line sound in_sets lw line_good refl
              (alone_way w lw m) (λ a apart. refl) (unmoved w m);
        memory = λ a.
            flat-replaced mem mem sets index w plru line sound in_sets lw line_good refl
              (alone_way w lw m) (λ a apart. refl) (unmoved w m)
              (read_data (store_n_bytes addr request.value request.n_bytes 4 0 (flat mem sets))) new
              stored-elsewhere a
            ∙ ap (λ m. read_data m a) (sym (memory-store is_store (flat mem sets)));
        response = sym (response-store is_store (flat mem sets));
      }
