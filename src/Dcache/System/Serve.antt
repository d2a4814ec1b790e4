-- ===== src/Dcache/System/Serve.antt =====
-- The data cache of src/DCache/DCache.cpp and the data memory of src/DMEM/DMEM.cpp as one flat memory.
use rv32im_simulator.Prelude.{
  ℕ, zero, suc, ◌+◌, ◌^◌, ◌<◌, ◌≤◌, ◌≡◌, refl, sym, ap, ◌∙◌, inl, inr, true, Bool-cases, List, [],
  ◌∷◌, length, replicate, arith,
}
use rv32im_simulator.Types.{MemRequest, MemDispatchDecision}
use rv32im_simulator.Memory.{Memory}
use rv32im_simulator.Lq.Tick.{is_load_op}
use rv32im_simulator.Dcache.{
  CacheSet, num_of_ways, empty_line, set_index, line_tag, line_offset, line_at,
}
use rv32im_simulator.Dcache.Ways.{matches, lookup_cases}
use rv32im_simulator.Dcache.Flat.{Sound}
use rv32im_simulator.Dcache.System.{Leftover, step, run, run-step, accept, at_rest}
use rv32im_simulator.Dcache.System.Miss.{run_end}
use rv32im_simulator.Dcache.System.Hit.{Serves, latency, serve-load-hit, serve-store-hit}
use rv32im_simulator.Dcache.System.Fill.{serve-load-miss, serve-store-miss}

-- A hit takes no more cycles.
one_cycle :
    (mem : Memory) (sets : ℕ → CacheSet) (left : Leftover) (request : MemRequest)
    (decisions : List MemDispatchDecision)
    → length decisions ≡ 0
    → Serves request mem sets (step (accept request) (at_rest mem sets left))
    → Serves request mem sets (run (accept request ∷ decisions) (at_rest mem sets left))
one_cycle mem sets left request [] l s = record {
  mem' = s.mem';
  sets' = s.sets';
  left' = s.left';
  rests = run-step (accept request) [] _ _ s.rests ∙ run_end _;
  sound = s.sound;
  memory = s.memory;
  response = s.response;
}
one_cycle mem sets left request (d ∷ rest) l s = absurd (omega arith)

-- Let the data cache and the data memory be at rest, the cache sound for the memory, and a load or
-- store of an address below 2 ^ 32 lie within one line. If the request is accepted and the system
-- runs, with any decisions, as many further cycles as it takes (none on a hit, mem_latency + 2 on
-- a miss), no assertion fails, the system is at rest and sound again, the flat memory that cache
-- and memory make up together reads at every address as the flat memory with the request carried
-- out, and the response, which only a load has, is the value in the flat memory.
pub serve :
    (mem : Memory) (sets : ℕ → CacheSet) (left : Leftover) (request : MemRequest)
    (decisions : List MemDispatchDecision)
    → Sound mem sets
    → request.address < 2 ^ 32
    → line_offset request.address + request.n_bytes ≤ 16
    → length decisions ≡ latency sets request
    → Serves request mem sets (run (accept request ∷ decisions) (at_rest mem sets left))
serve mem sets left request decisions sound small inside l =
    let addr = request.address in
    let index = set_index addr in
    let in_sets : index < 1024 = omega arith in
    elim (lookup_cases (line_tag addr) (sets index).lines) [
      | inl (missing, no_way) ↦
          let long : length decisions ≡ 22 = l ∙ rw (missing, latency) refl in
          elim (Bool-cases (is_load_op request.op)) [
            | inl is_load ↦
                serve-load-miss mem sets left request sound small inside no_way decisions long
                  is_load
            | inr is_store ↦
                serve-store-miss mem sets left request sound small inside no_way decisions long
                  is_store
          ]
      | inr (w, lw, found, m) ↦
          let short : length decisions ≡ 0 = l ∙ rw (found, latency) refl in
          let lw' : w < 4 = let f = (sound index in_sets).four in omega arith in
          one_cycle mem sets left request decisions short
            (elim (Bool-cases (is_load_op request.op)) [
              | inl is_load ↦
                  serve-load-hit mem sets left request sound small inside w lw' is_load m found
              | inr is_store ↦
                  serve-store-hit mem sets left request sound small inside w lw' is_store m found
            ])
    ]

-- The sets of a cache that has no valid line.
abbrev pub empty_sets : ℕ → CacheSet
empty_sets index = record { lines = replicate num_of_ways empty_line; plru = 0 }

empty_way : (w : ℕ) → line_at (replicate num_of_ways empty_line) w ≡ empty_line
empty_way zero = refl
empty_way (suc zero) = refl
empty_way (suc (suc zero)) = refl
empty_way (suc (suc (suc zero))) = refl
empty_way (suc (suc (suc (suc w)))) = refl

pub empty-Sound : (mem : Memory) → Sound mem empty_sets
empty-Sound mem index l = record {
  four = refl;
  lines = λ w lw. rw (empty_way w) (record {
    storage = refl;
    dirty_valid = λ e. e;
    small = λ e. absurd (ground arith);
    clean = λ e. absurd (ground arith);
    outside = λ e. absurd (ground arith);
  });
  apart = λ tag v w lv lw mv mw.
      let no : matches tag empty_line ≡ true = ap (matches tag) (sym (empty_way v)) ∙ mv in
      absurd (ground arith);
}
