-- ===== src/Tests/Fetching.antt =====
-- Tests of the instruction cache and the instruction memory.
use rv32im_simulator.Prelude.{
  ℕ, ◌+◌, ◌*◌, zero, suc, ◌%◌, ◌^◌, ◌≡◌, refl, sym, ap, ◌∙◌, inl, inr, ◌⊎◌, Bool, true, false, some,
  List, [], ◌∷◌, get_or, set, replicate, arith,
}
use rv32im_simulator.Memory.{Memory, read_data, write_data}
use rv32im_simulator.Memory.Image.{load_ins}
use rv32im_simulator.Fetch.{FetchDecision, no_fetch, LineReturn}
use rv32im_simulator.Icache
use rv32im_simulator.Icache.{Icache, IcacheInput, CacheRequest, head_request, hit}
use rv32im_simulator.Icache.Coherent.{Coherent, IsLine, tick-Coherent}
use rv32im_simulator.Imem
use rv32im_simulator.Imem.{
  Imem, ImemInput, ImemRequest, imem_cap, is_return_ready, is_request_full, get_return, line_bytes,
  request_at, is_counting,
}
use rv32im_simulator.Imem.Lines.{Sound, request_at-set}
use rv32im_simulator.Imem.Cycle.{initial-Sound, tick-Sound, get_or-replicate}
use rv32im_simulator.Imem.Reply.{IsBytes, program_word, get_return-IsLine}
use rv32im_simulator.Tests.Samples.{quiet}

-- A program whose words tell their places.
abbrev program : ℕ → ℕ
program k = 100 + k

abbrev fetch_of : Bool → ℕ → FetchDecision
fetch_of valid pc = record no_fetch { valid = valid; pc = pc; predicted_pc = pc + 4; ckpt_id = 1 }

-- The line of the program at an address that is a multiple of 16.
abbrev line_of : ℕ → LineReturn
line_of k = record {
  valid = true;
  line_addr = k * 16;
  words = program (k * 4) ∷ program (k * 4 + 1) ∷ program (k * 4 + 2) ∷ program (k * 4 + 3) ∷ [];
}

abbrev placeholder : ℕ → CacheRequest
placeholder pc = record Icache.zero_request { pc = pc; predict_pc = pc + 4 }

abbrev waiting_for : List CacheRequest → ℕ → Icache
waiting_for requests count = record Icache.initial { request_buffer = requests; count = count }

-- A request for address 36 waits at the head.
abbrev waiting : Icache
waiting = waiting_for (placeholder 36 ∷ replicate 3 Icache.zero_request) 1

abbrev cycle : IcacheInput
cycle = record {
  squash = quiet;
  decision = fetch_of true 40;
  pop_consume = false;
  line_return = line_of 2;
}

line_of-IsLine : IsLine program (line_of 2)
line_of-IsLine zero l = refl
line_of-IsLine (suc zero) l = refl
line_of-IsLine (suc (suc zero)) l = refl
line_of-IsLine (suc (suc (suc zero))) l = refl
line_of-IsLine (suc (suc (suc (suc i)))) l = absurd (omega arith)

impossible : {A : Type 0} → false ≡ true → A
impossible e = absurd (ground arith)

waiting-Coherent : Coherent program waiting
unfolding hit
waiting-Coherent = record {
  lines = λ addr h. absurd (ground arith);
  requests = (impossible, (impossible, (impossible, (impossible, tt))));
}

tick-Coherent_example : Coherent program (Icache.tick cycle waiting)
unfolding Icache.released
tick-Coherent_example =
    tick-Coherent program cycle waiting (λ v. line_of-IsLine) (λ v empty. refl) waiting-Coherent

-- A queue is stalled with a request for the line 2 at its head and a placeholder for address 56
-- behind it: the line 3, which answers the placeholder, is lost on it.
abbrev stalled : Icache
stalled =
    waiting_for
      (record (placeholder 36) { raw_inst = program 9; valid = true }
        ∷ placeholder 56
        ∷ replicate 2 Icache.zero_request)
      2

abbrev answer : ℕ → Bool → IcacheInput
answer k released = record {
  squash = quiet;
  decision = fetch_of false 0;
  pop_consume = released;
  line_return = line_of k;
}

stalled_lost :
    (get_or (Icache.tick (answer 3 false) stalled).request_buffer 1 (placeholder 0)).valid ≡ false
unfolding Icache.tick
stalled_lost = refl

-- Once that placeholder is at the head, it takes its word from the line 4: the instruction of
-- address 72 under the address 56.
stalled_wrong :
    let request =
      head_request (Icache.tick (answer 4 true) (Icache.tick (answer 3 false) stalled)) in
    (request.pc ≡ 56) × (request.raw_inst ≡ program 18)
unfolding Icache.tick
stalled_wrong = (refl, refl)

-- A memory whose bytes count up.
abbrev counting_bytes : Memory
counting_bytes addr = addr % 2 ^ 8

counting_bytes-IsBytes : IsBytes counting_bytes
counting_bytes-IsBytes addr = omega arith

abbrev claim : ImemInput
claim = record { squash = quiet; decision = fetch_of true 32; line_consumed = false }

tick-Sound_example :
    (next : Imem) × (Imem.tick claim (Imem.initial counting_bytes) ≡ some next)
    × Sound counting_bytes next
unfolding is_request_full
tick-Sound_example =
    tick-Sound counting_bytes claim (Imem.initial counting_bytes) (initial-Sound counting_bytes)
      (λ e. impossible e) (λ e. (refl, refl, omega arith))

-- The request at the head is done.
abbrev done : ImemRequest
done = record {
  bytes = line_bytes counting_bytes 32 0 16;
  line_addr = 32;
  remain_cycle = 0;
  valid = true;
}

abbrev answering : Imem
answering = record {
  mem = counting_bytes;
  reqs = set (replicate imem_cap Imem.zero_request) 0 done;
  head = 0;
  count = 1;
}

request_at-answering :
    (i : ℕ)
    → (request_at answering.reqs i ≡ done) ⊎ (request_at answering.reqs i ≡ Imem.zero_request)
request_at-answering i =
    elim (request_at-set (replicate imem_cap Imem.zero_request) 0 done i (omega arith)) [
      | inl (e, at) ↦ inl at
      | inr (ne, at) ↦ inr (at ∙ get_or-replicate imem_cap i)
    ]

answering-Sound : Sound counting_bytes answering
answering-Sound = record {
  memory = refl;
  storage = refl;
  head_in = omega arith;
  count_in = omega arith;
  counting = λ i l c. elim (request_at-answering i) [
    | inl e ↦ impossible (ap is_counting (sym e) ∙ c)
    | inr e ↦ impossible (ap is_counting (sym e) ∙ c)
  ];
  filled = λ i l. elim (request_at-answering i) [
    | inl e ↦ rw e (λ v. (refl, omega arith, λ z. refl))
    | inr e ↦ rw e (λ v. impossible v)
  ];
}

get_return-IsLine_example :
    ((get_return answering).valid ≡ true)
    × ((get_return answering).line_addr ≡ (request_at answering.reqs answering.head).line_addr)
    × IsLine (program_word counting_bytes) (get_return answering)
unfolding is_return_ready
get_return-IsLine_example =
    get_return-IsLine counting_bytes answering counting_bytes-IsBytes answering-Sound refl

-- The image "@10 A7,0f": the bytes from address 16 on.
image : Memory
unfolding load_ins
image = load_ins (64 ∷ 49 ∷ 48 ∷ 32 ∷ 65 ∷ 55 ∷ 44 ∷ 48 ∷ 102 ∷ []) (λ addr. 0)

image_bytes : (read_data image 16 ≡ 0xa7) × (read_data image 17 ≡ 0xf) × (read_data image 18 ≡ 0)
unfolding read_data image write_data
image_bytes = (refl, refl, refl)
