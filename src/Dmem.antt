-- ===== src/Dmem.antt =====
-- The data memory of src/include/DMEM.hpp and src/DMEM/DMEM.cpp: one read and one write of a line at a
-- time, each of which takes a fixed number of cycles.
use rv32im_simulator.Prelude.{
  ℕ, zero, suc, ◌+◌, ◌*◌, ◌<<<◌, ◌>>>◌, bit_or, bit_and, Bool, true, false, not, ◌&&◌, ◌==◌, ltb,
  if◌then◌else◌, List, [], ◌∷◌, replicate, u32, sub32,
}
use rv32im_simulator.Memory.{Memory, read_data, write_data}
use rv32im_simulator.Imem.{line_bytes}

-- `struct ReadRequest`; the count of cycles is the pattern of an `int`.
pub record ReadRequest : Type 0 where
  pub remain_cycle : ℕ
  pub address : ℕ

-- `struct WriteRequest`.
pub record WriteRequest : Type 0 where
  pub remain_cycle : ℕ
  pub address : ℕ
  pub bytes : List ℕ

-- `struct DMEMRequest`.
pub record DmemRequest : Type 0 where
  pub read_valid : Bool
  pub read : ReadRequest
  pub write_valid : Bool
  pub write : WriteRequest

abbrev no_bytes : List ℕ
no_bytes = replicate 16 0

abbrev pub no_read : ReadRequest
no_read = record { remain_cycle = 0; address = 0 }

abbrev pub no_write : WriteRequest
no_write = record { remain_cycle = 0; address = 0; bytes = no_bytes }

abbrev pub no_request : DmemRequest
no_request = record { read_valid = false; read = no_read; write_valid = false; write = no_write }

-- `readOutputBuffer` is a `struct MemReply`, the sixteen bytes of a line.
pub record Dmem : Type 0 where
  pub mem : Memory
  pub read_busy : Bool
  pub read_buffer_valid : Bool
  pub write_busy : Bool
  pub read_execute : ReadRequest
  pub read_output_buffer : List ℕ
  pub write_execute : WriteRequest

-- The constructor from a memory.
abbrev pub initial : Memory → Dmem
initial mem = record {
  mem = mem;
  read_busy = false;
  read_buffer_valid = false;
  write_busy = false;
  read_execute = no_read;
  read_output_buffer = no_bytes;
  write_execute = no_write;
}

-- The loop that puts the first `n` of four bytes together, the lowest first.
unfoldable pub gather : (ℕ → ℕ) → ℕ → ℕ → ℕ → ℕ → ℕ
gather byte n zero i result = result
gather byte n (suc rounds) i result =
    gather byte n rounds (suc i) (if ltb i n then bit_or result (byte i <<< i * 8) else result)

-- The sign extension of a narrow signed load.
unfoldable pub extend_sign : ℕ → Bool → ℕ → ℕ
extend_sign n is_signed result =
    if is_signed && (n == 1) && not (bit_and result 0x80 == 0)
    then bit_or result 0xFFFFFF00
    else if is_signed && (n == 2) && not (bit_and result 0x8000 == 0)
    then bit_or result 0xFFFF0000
    else result

unfoldable pub load_n_bytes : Memory → ℕ → ℕ → Bool → ℕ
unfolding gather extend_sign
load_n_bytes mem address n is_signed =
    extend_sign n is_signed (gather (λ i. read_data mem (u32 (address + i))) n 4 0 0)

-- The loop of `writeLine` from the `i`-th byte on.
unfoldable pub write_line : ℕ → List ℕ → ℕ → Memory → Memory
write_line addr [] i mem = mem
write_line addr (byte ∷ rest) i mem =
    write_line addr rest (suc i) (write_data (u32 (addr + i)) byte mem)

unfoldable claim_read : DmemRequest → Dmem → Dmem
claim_read request old =
    if request.read_valid && not old.read_busy
    then record old { read_execute = request.read; read_busy = true }
    else old

unfoldable claim_write : DmemRequest → Dmem → Dmem → Dmem
claim_write request old next =
    if request.write_valid && not old.write_busy
    then record next { write_execute = request.write; write_busy = true }
    else next

-- `MemPull` on a reply that was ready.
unfoldable pull : Dmem → Dmem → Dmem
pull old next = if old.read_buffer_valid then record next { read_buffer_valid = false } else next

-- The read under way: at the last cycle the line is read from the memory of the next state.
unfoldable execute_read : Dmem → Dmem → Dmem
execute_read old next =
    let left = sub32 old.read_execute.remain_cycle 1 in
    let base = old.read_execute.address >>> 4 <<< 4 in
    if not old.read_busy
    then next
    else if left == 0
    then record next {
      read_output_buffer = line_bytes next.mem base 0 16;
      read_buffer_valid = true;
      read_busy = false;
    }
    else record next {
      read_execute = record old.read_execute { remain_cycle = left };
      read_busy = true;
    }

unfoldable execute_write : Dmem → Dmem → Dmem
unfolding write_line
execute_write old next =
    let left = sub32 old.write_execute.remain_cycle 1 in
    if not old.write_busy
    then next
    else if left == 0
    then record next {
      mem = write_line old.write_execute.address old.write_execute.bytes 0 next.mem;
      write_busy = false;
    }
    else record next {
      write_execute = record old.write_execute { remain_cycle = left };
      write_busy = true;
    }

-- `DMEM::tick`.
unfoldable pub tick : DmemRequest → Dmem → Dmem
unfolding claim_read claim_write pull execute_read execute_write
tick request old =
    execute_write old
      (execute_read old (pull old (claim_write request old (claim_read request old))))
