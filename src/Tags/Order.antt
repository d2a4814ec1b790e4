-- ===== src/Tags/Order.antt =====
-- What the packed numbers of src/include/common.hpp stand for: the n-th allocation has the tag `tag_of n`, and the
-- n-th free-list event the sequence `seq_of n`.
use rv32im_simulator.Prelude.{ℕ, ◌+◌, ◌-◌, ◌*◌, ◌/◌, ◌%◌, ◌≤◌, ◌<◌, ◌≡◌, ltb, arith}
use rv32im_simulator.Tags.{rob_cap, rob_next_tag, is_older, prf_cap, prf_seq_next, prf_seq_distance}

abbrev pub tag_of : ℕ → ℕ
tag_of n = n % 32

abbrev pub seq_of : ℕ → ℕ
seq_of n = n % 48 + n / 48 % 2 * 64

-- The successor of an allocation's tag is the tag of the next allocation.
pub rob_next_tag-tag_of : (n : ℕ) → rob_next_tag (tag_of n) ≡ tag_of (n + 1)
unfolding rob_next_tag
rob_next_tag-tag_of n = ground arith

-- On the tags of two allocations that are less than `rob_cap` apart, `is_older` is the order of
-- allocation.
pub is_older-tag_of :
    (a b : ℕ) → a < b + rob_cap → b < a + rob_cap → is_older (tag_of a) (tag_of b) ≡ ltb a b
unfolding is_older
is_older-tag_of a b h k = ground arith

pub prf_seq_next-seq_of : (n : ℕ) → prf_seq_next (seq_of n) ≡ seq_of (n + 1)
unfolding prf_seq_next
prf_seq_next-seq_of n = ground arith

-- The distance of the sequences of two free-list events, the second not before the first and less
-- than two rings after it, is the number of events between them.
pub prf_seq_distance-seq_of :
    (a b : ℕ) → a ≤ b → b < a + 2 * prf_cap → prf_seq_distance (seq_of a) (seq_of b) ≡ b - a
unfolding prf_seq_distance
prf_seq_distance-seq_of a b h k = ground arith

-- How many allocations after the `base`-th the tag was handed out, if that is less than 32.
abbrev pub age : ℕ → ℕ → ℕ
age base tag = (tag + 32 - base % 32) % 32

-- The tags that may be in flight while the oldest one is the `base`-th.
abbrev pub InWindow : ℕ → ℕ → Type 0
InWindow base tag = (tag < 32) × (age base tag < rob_cap)

-- On two tags in flight `is_older` compares how many allocations after the oldest one they were
-- handed out.
pub is_older-age :
    (base s t : ℕ)
    → InWindow base s
    → InWindow base t
    → is_older s t ≡ ltb (age base s) (age base t)
unfolding is_older
is_older-age base s t h k = ground arith
