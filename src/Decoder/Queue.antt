-- ===== src/Decoder/Queue.antt =====
-- The micro-operation queue and the decode unit of src/Decoder/Decoder.cpp.
use rv32im_simulator.Prelude.{
  ℕ, Bool, false, ◌||◌, ◌==◌, if◌then◌else◌, none, some, get_or, replicate,
}
use rv32im_simulator.Types.{SquashInfo}
use rv32im_simulator.Ring
use rv32im_simulator.Ring.{Ring}
use rv32im_simulator.FetchQueue
use rv32im_simulator.FetchQueue.{FetchQueue, FetchEntry}
use rv32im_simulator.Decoder.{Uop, RiscV, decode}

abbrev pub iq_cap : ℕ
iq_cap = 4

-- `UopQueue`, which `DecodeUnit` wraps.
abbrev pub UopQueue : Type 0
UopQueue = Ring Uop

-- All bytes zero: format 0 is `R`.
abbrev pub zero_uop : Uop
zero_uop = record {
  format = RiscV.r;
  opcode = 0;
  funct3 = 0;
  funct7 = 0;
  rd = 0;
  rs1 = 0;
  rs2 = 0;
  imm = 0;
  pc = 0;
  is_halt = false;
  alloc_dest = false;
  predicted_pc = 0;
  ckpt_id = 0;
}

unfoldable pub is_empty : UopQueue → Bool
is_empty q = Ring.is_empty q

unfoldable pub is_full : UopQueue → Bool
is_full q = Ring.is_full iq_cap q

unfoldable pub push : Uop → UopQueue → UopQueue
push uop q = Ring.push iq_cap uop q

unfoldable pub pop : UopQueue → UopQueue
pop q = Ring.pop iq_cap q

abbrev pub clear : UopQueue
clear = record { slots = replicate iq_cap zero_uop; head = 0; tail = 0 }

-- The fields that `headType` to `headCkptId` read one by one.
unfoldable pub head_uop : UopQueue → Uop
head_uop q = get_or q.slots q.head zero_uop

-- What `DecodeUnit::tick` makes of an entry of the fetch queue. The halt marker is the word
-- 0x0ff00513.
unfoldable pub decode_entry : FetchEntry → Uop
decode_entry entry =
    let uop = decode entry.raw in
    record uop {
      pc = entry.pc;
      predicted_pc = entry.predicted_pc;
      ckpt_id = entry.ckpt_id;
      is_halt = entry.raw == 0x0ff00513;
    }

-- `struct DecodeInput`.
pub record DecodeInput : Type 0 where
  pub squash : SquashInfo
  pub fetch_queue : FetchQueue
  pub issue_valid : Bool

-- `DecodeUnit::tick`. The flags are read before the tick, so an entry that is issued in this cycle
-- makes room in the next one only.
unfoldable pub tick : DecodeInput → UopQueue → UopQueue
unfolding pop push is_full
tick input old =
    let issued = if input.issue_valid then pop old else old in
    if input.squash.need_squash
    then clear
    else if FetchQueue.is_empty input.fetch_queue || is_full old
    then issued
    else elim (FetchQueue.head_entry input.fetch_queue) [
      | none ↦ issued
      | some entry ↦ push (decode_entry entry) issued
    ]
