-- ===== src/Imem.antt =====
-- The instruction memory of src/include/IMEM.hpp and src/IMEM/IMEM.cpp: a queue of requests for
-- lines, each of which is answered after a fixed number of cycles.
pub mod Lines
pub mod Window
pub mod Cycle
pub mod Reply
use rv32im_simulator.Prelude.{
  ℕ, zero, suc, ◌+◌, ◌-◌, ◌*◌, ◌%◌, ◌^◌, ◌<<<◌, bit_or, Bool, true, false, not, ◌&&◌, ◌==◌, ltb,
  if◌then◌else◌, Option, none, some, List, [], ◌∷◌, get_or, set, replicate, u8, u32,
}
use rv32im_simulator.Types.{SquashInfo}
use rv32im_simulator.Memory.{Memory, read_data}
use rv32im_simulator.Fetch.{FetchDecision, LineReturn}

abbrev pub imem_cap : ℕ
imem_cap = 16

abbrev pub mem_latency : ℕ
mem_latency = 20

-- `IMEMRequest`.
pub record ImemRequest : Type 0 where
  pub bytes : List ℕ
  pub line_addr : ℕ
  pub remain_cycle : ℕ
  pub valid : Bool

pub record Imem : Type 0 where
  pub mem : Memory
  pub reqs : List ImemRequest
  pub head : ℕ
  pub count : ℕ

-- `struct IMEMInput`.
pub record ImemInput : Type 0 where
  pub squash : SquashInfo
  pub decision : FetchDecision
  pub line_consumed : Bool

abbrev pub zero_request : ImemRequest
zero_request = record { bytes = replicate 16 0; line_addr = 0; remain_cycle = 0; valid = false }

abbrev pub request_at : List ImemRequest → ℕ → ImemRequest
request_at reqs index = get_or reqs index zero_request

-- The constructor from a memory.
abbrev pub initial : Memory → Imem
initial mem = record { mem = mem; reqs = replicate imem_cap zero_request; head = 0; count = 0 }

unfoldable pub clear : Imem → Imem
clear imem = initial imem.mem

unfoldable pub is_return_ready : Imem → Bool
is_return_ready imem =
    let request = request_at imem.reqs imem.head in
    ltb 0 imem.count && request.valid && (request.remain_cycle == 0)

unfoldable pub is_request_full : Imem → Bool
is_request_full imem = imem.count == imem_cap

-- `count` is a `uint8_t`.
unfoldable pub pop : Imem → Imem
pop imem = record imem {
  reqs =
      set imem.reqs imem.head
        (record (request_at imem.reqs imem.head) { valid = false; remain_cycle = 0 });
  head = (imem.head + 1) % imem_cap;
  count = u8 (imem.count + 2 ^ 8 - 1);
}

abbrev pub new_request : ℕ → ImemRequest
new_request line_addr = record zero_request {
  remain_cycle = mem_latency;
  line_addr = line_addr;
  valid = true;
}

-- `none` is the failed assertion on a full queue.
unfoldable pub push_request : ℕ → Imem → Option Imem
push_request line_addr imem =
    if imem.count == imem_cap
    then none
    else some (record imem {
      reqs = set imem.reqs ((imem.head + imem.count) % imem_cap) (new_request line_addr);
      count = u8 (imem.count + 1);
    })

-- The loop of `getReturn` that puts a word together, its lowest byte first.
unfoldable pub word_loop : List ℕ → ℕ → ℕ → ℕ → ℕ → ℕ
word_loop bytes w zero b word = word
word_loop bytes w (suc rounds) b word =
    word_loop bytes w rounds (suc b) (bit_or word (get_or bytes (w * 4 + b) 0 <<< b * 8))

abbrev pub line_word : List ℕ → ℕ → ℕ
line_word bytes w = word_loop bytes w 4 0 0

unfoldable pub get_return : Imem → LineReturn
unfolding is_return_ready word_loop
get_return imem =
    let request = request_at imem.reqs imem.head in
    let word = line_word request.bytes in
    if is_return_ready imem
    then record {
      valid = true;
      line_addr = request.line_addr;
      words = word 0 ∷ word 1 ∷ word 2 ∷ word 3 ∷ [];
    }
    else record { valid = false; line_addr = 0; words = replicate 4 0 }

-- `n` bytes of memory from the `b`-th of the line on.
unfoldable pub line_bytes : Memory → ℕ → ℕ → ℕ → List ℕ
line_bytes mem line_addr b zero = []
line_bytes mem line_addr b (suc n) =
    read_data mem (u32 (line_addr + b)) ∷ line_bytes mem line_addr (suc b) n

abbrev pub is_counting : ImemRequest → Bool
is_counting request = request.valid && ltb 0 request.remain_cycle

-- One round of the countdown: the old request decides, the next state is changed.
unfoldable pub count_down : Memory → ImemRequest → ImemRequest → ImemRequest
unfolding line_bytes
count_down mem old next =
    let left = old.remain_cycle - 1 in
    let aged = record next { remain_cycle = left } in
    if not (is_counting old)
    then next
    else if left == 0
    then record aged { bytes = line_bytes mem old.line_addr 0 16 }
    else aged

unfoldable pub count_all : Memory → List ImemRequest → List ImemRequest → List ImemRequest
unfolding count_down
count_all mem (old ∷ olds) (next ∷ nexts) = count_down mem old next ∷ count_all mem olds nexts
count_all mem olds nexts = nexts

-- The queue after the release of a consumed line.
unfoldable pub released : ImemInput → Imem → Imem
unfolding pop
released input old = if input.line_consumed then pop old else old

-- The queue after the claim of a fetched line.
unfoldable pub claimed : FetchDecision → Imem → Option Imem
unfolding push_request
claimed decision imem = if decision.valid then push_request decision.pc imem else some imem

-- `IMEM::tick`.
unfoldable pub tick : ImemInput → Imem → Option Imem
unfolding clear released claimed count_all
tick input old =
    if input.squash.need_squash
    then some (clear old)
    else elim (claimed input.decision (released input old)) [
      | none ↦ none
      | some next ↦ some (record next { reqs = count_all old.mem old.reqs next.reqs })
    ]
