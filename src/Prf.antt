-- ===== src/Prf.antt =====
-- The physical register file of src/include/PRF.hpp and src/PRF/PRF.cpp: values with ready flags,
-- the free list as a ring between two packed sequences, and the head sequence saved per checkpoint.
-- `Prf.Tick` has the clocked part, `Prf.FreeList` what the ring promises.
pub mod FreeList
pub mod Tick
use rv32im_simulator.Prelude.{
  ℕ, zero, suc, ◌+◌, ◌-◌, Bool, true, false, ◌||◌, ◌==◌, if◌then◌else◌, Option, none, some, List,
  [], ◌∷◌, ◌++◌, get_or, set, replicate,
}
use rv32im_simulator.Types.{Operand, invalid_phy}
use rv32im_simulator.Tags.{register_cap, prf_cap, prf_slot, prf_seq_next}

pub record PrfEntry : Type 0 where
  pub value : ℕ
  pub ready : Bool

pub record Prf : Type 0 where
  pub physical_regs : List PrfEntry
  pub free_list : List ℕ
  pub head_ckpt : List ℕ
  pub head_seq : ℕ
  pub tail_seq : ℕ

abbrev pub ckpt_cap : ℕ
ckpt_cap = 32

-- What a read out of range gives.
abbrev no_entry : PrfEntry
no_entry = record { value = 0; ready = false }

unfoldable pub is_free_list_empty : Prf → Bool
is_free_list_empty p = p.head_seq == p.tail_seq

unfoldable pub get_free_list_slot : Prf → ℕ → ℕ
get_free_list_slot p seq = get_or p.free_list (prf_slot seq) invalid_phy

-- `none` is the thrown "PRF free list underflow!" or the failed assertion on `InvalidPhy`.
unfoldable pub pop : Prf → Option (ℕ × Prf)
unfolding is_free_list_empty get_free_list_slot
pop p =
    let phy = get_free_list_slot p p.head_seq in
    let entry = get_or p.physical_regs phy no_entry in
    if is_free_list_empty p || (phy == invalid_phy)
    then none
    else some (
      phy,
      record p {
        head_seq = prf_seq_next p.head_seq;
        physical_regs = set p.physical_regs phy (record entry { ready = false });
      },
    )

-- `none` is the failed assertion on `InvalidPhy`.
unfoldable pub push : ℕ → Prf → Option Prf
push index p =
    if index == invalid_phy
    then none
    else some (record p {
      free_list = set p.free_list (prf_slot p.tail_seq) index;
      tail_seq = prf_seq_next p.tail_seq;
    })

unfoldable pub is_ready : Prf → ℕ → Bool
is_ready p index = (get_or p.physical_regs index no_entry).ready

unfoldable pub get_value : Prf → ℕ → ℕ
get_value p index = (get_or p.physical_regs index no_entry).value

unfoldable pub write : ℕ → ℕ → Prf → Prf
write index value p = record p {
  physical_regs = set p.physical_regs index (record { value = value; ready = true });
}

unfoldable pub is_operand_ready : Prf → Operand → Bool
unfolding is_ready
is_operand_ready p op = (op.tag == invalid_phy) || is_ready p op.tag

unfoldable pub get_operand_value : Prf → Operand → ℕ
unfolding get_value
get_operand_value p op = if op.tag == invalid_phy then op.imm else get_value p op.tag

-- The constructor's loop: `count` more registers from `index` on go to the free list.
unfoldable pub fill : ℕ → ℕ → Prf → Prf
fill zero index p = p
fill (suc count) index p = fill count (suc index) (record p {
  free_list = set p.free_list (prf_slot p.tail_seq) index;
  tail_seq = prf_seq_next p.tail_seq;
})

-- `PRF::PRF()`: the first 32 registers are ready, and the others are free. The source leaves
-- `PRFHeadCkpt` unset; it is read only after it has been written.
unfoldable pub initial : Prf
unfolding fill
initial = fill (prf_cap - register_cap) register_cap (record {
  physical_regs =
      replicate register_cap (record { value = 0; ready = true })
      ++ replicate (prf_cap - register_cap) (record { value = 0; ready = false });
  free_list = replicate prf_cap 0;
  head_ckpt = replicate ckpt_cap 0;
  head_seq = 0;
  tail_seq = 0;
})
