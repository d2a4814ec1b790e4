-- ===== src/Tags.antt =====
-- The packed sequence numbers of src/include/common.hpp: reorder-buffer tags (an epoch bit above a
-- four-bit slot) and free-list sequences (an epoch bit above a six-bit index of which 48 values are
-- used), and the age comparison `ROB::isOlder` of src/ROB/ROB.cpp.
pub mod Order
use rv32im_simulator.Prelude.{
  ℕ, ◌+◌, ◌-◌, ◌*◌, ◌/◌, ◌%◌, ◌^◌, ◌<<<◌, ◌>>>◌, Bool, not, ◌||◌, ltb, ◌==◌, if◌then◌else◌,
  low_bits, complement, u32,
}
use rv32im_simulator.Types.{SquashInfo}

abbrev pub rob_cap : ℕ
rob_cap = 16

-- `ROB_TAG_WIDTH` is `bit_width(ROB_CAP - 1) + 1`; the slot field is one bit narrower.
abbrev rob_tag_width : ℕ
rob_tag_width = 5

abbrev rob_index_width : ℕ
rob_index_width = 4

abbrev pub rob_slot : ℕ → ℕ
rob_slot tag = low_bits rob_index_width tag

-- Past the last slot the epoch bit flips and the slot restarts at 0: `(~tag & ROB_TAG_MASK)` with
-- its slot field cleared.
unfoldable pub rob_next_tag : ℕ → ℕ
rob_next_tag tag =
    if rob_slot tag == rob_cap - 1
    then complement rob_tag_width tag >>> rob_index_width <<< rob_index_width
    else low_bits rob_tag_width (tag + 1)

-- `ROB::isOlder`: equal epochs compare slots upwards, different epochs downwards.
unfoldable pub is_older : ℕ → ℕ → Bool
is_older tag_a tag_b =
    if tag_a >>> rob_index_width == tag_b >>> rob_index_width
    then ltb (rob_slot tag_a) (rob_slot tag_b)
    else ltb (rob_slot tag_b) (rob_slot tag_a)

-- `ROB::isYounger`.
abbrev pub is_younger : ℕ → ℕ → Bool
is_younger tag_a tag_b = is_older tag_b tag_a

-- `!needSquash || isOlder(tag, SquashTag)`, the guard on every result while a squash is broadcast.
abbrev pub survives : SquashInfo → ℕ → Bool
survives squash tag = not squash.need_squash || is_older tag squash.squash_tag

abbrev pub register_cap : ℕ
register_cap = 32

abbrev pub prf_cap : ℕ
prf_cap = 48

abbrev prf_index_width : ℕ
prf_index_width = 6

abbrev prf_seq_width : ℕ
prf_seq_width = 7

abbrev pub prf_slot : ℕ → ℕ
prf_slot seq = low_bits prf_index_width seq

unfoldable pub prf_seq_next : ℕ → ℕ
prf_seq_next seq =
    if prf_slot seq == prf_cap - 1
    then complement prf_seq_width seq >>> prf_index_width <<< prf_index_width
    else low_bits prf_seq_width (seq + 1)

-- The source's signed `distance` is `ahead - behind`: a flipped epoch adds one ring on the side of
-- the later sequence, and a negative distance is brought up by two rings.
unfoldable pub prf_seq_distance : ℕ → ℕ → ℕ
prf_seq_distance from to =
    let from_epoch = low_bits 1 (from >>> prf_index_width) in
    let to_epoch = low_bits 1 (to >>> prf_index_width) in
    let ahead = prf_slot to + (if ltb from_epoch to_epoch then prf_cap else 0) in
    let behind = prf_slot from + (if ltb to_epoch from_epoch then prf_cap else 0) in
    if ltb ahead behind then u32 (ahead + prf_cap * 2 + 2 ^ 32 - behind) else u32 (ahead - behind)
