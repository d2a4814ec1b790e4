-- ===== src/Dcache/System/First.antt =====
-- The cycle in which the data cache accepts a request.
use rv32im_simulator.Prelude.{
  ℕ, ◌+◌, ◌<<<◌, ◌>>>◌, ◌≡◌, refl, inl, inr, Bool-cases, true, false, leb, Option, none, some, u32,
  u64,
}
use rv32im_simulator.Types.{MemRequest}
use rv32im_simulator.Memory.{Memory}
use rv32im_simulator.Lq.Tick.{is_load_op}
use rv32im_simulator.Dmem.{extend_sign}
use rv32im_simulator.Dcache.{
  CacheSet, DataLine, set_index, line_tag, line_offset, line_at, find_way, allocate_line,
  no_response,
}
use rv32im_simulator.Dcache.Access.{line_value, read_way, write_way, pr_rd, pr_wr}
use rv32im_simulator.Dcache.Flat.Replace.{with_set}
use rv32im_simulator.Dcache.System.{Leftover, step, accept, at_rest, parked}
use rv32im_simulator.Dcache.System.Miss.{asking}

-- What a hit leaves behind, with a response or without one.
abbrev pub after_load : MemRequest → ℕ → Leftover → Leftover
after_load request value left = record left {
  load_buffer = record {
    valid = true;
    mem_index = request.mem_index;
    rob_tag = request.rob_tag;
    value = value;
  };
  hit_count = u64 (left.hit_count + 1);
}

abbrev pub after_store : Leftover → Leftover
after_store left = record left { load_buffer = no_response; hit_count = u64 (left.hit_count + 1) }

module _ (mem : Memory) (sets : ℕ → CacheSet) (left : Leftover) (request : MemRequest)
    (inside : leb (line_offset request.address + request.n_bytes) 16 ≡ true) where
  abbrev index : ℕ
  index = set_index request.address

  abbrev search : Option ℕ
  search = find_way (line_tag request.address) (sets index).lines 0 none

  abbrev victim : DataLine
  victim = line_at (sets index).lines (allocate_line (sets index))

  pub load-hit-step :
      (w : ℕ)
      → is_load_op request.op ≡ true
      → search ≡ some w
      → step (accept request) (at_rest mem sets left)
        ≡ some (
            at_rest mem (with_set index (read_way w (sets index)) sets) (
              after_load request
                (line_value request.address request.n_bytes request.is_signed
                  (line_at (sets index).lines w))
                left))
  unfolding step pr_rd read_way extend_sign
  load-hit-step w is_load found = rw (is_load, inside, found) refl

  pub store-hit-step :
      (w : ℕ)
      → is_load_op request.op ≡ false
      → search ≡ some w
      → step (accept request) (at_rest mem sets left)
        ≡ some (
            at_rest mem
              (with_set index
                (write_way request.address request.value request.n_bytes w (sets index))
                sets)
              (after_store left))
  unfolding step pr_wr write_way
  store-hit-step w is_load found = rw (is_load, inside, found) refl

  pub miss-step :
      search ≡ none
      → step (accept request) (at_rest mem sets left)
        ≡ some (
            asking mem sets left
              (parked request (allocate_line (sets index)))
              victim.dirty
              (request.address >>> 4 <<< 4)
              (u32 (((victim.tag <<< 10) + index) <<< 4))
              victim.bytes
              (u64 (left.miss_count + 1)))
  unfolding step pr_rd pr_wr
  miss-step missing = elim (Bool-cases (is_load_op request.op)) [
    | inl is_load ↦ rw (is_load, inside, missing) refl
    | inr is_store ↦ rw (is_store, inside, missing) refl
  ]
