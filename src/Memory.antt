-- ===== src/Memory.antt =====
-- The byte memory `Memory` of src/include/Memory.hpp, which the instruction and the data memory
-- share.
pub mod Image
use rv32im_simulator.Prelude.{
  ℕ, ◌*◌, ◌^◌, ◌≡◌, refl, ◌≢◌, ◌⊎◌, true, false, ltb, ◌==◌, ◌&&◌, Bool-cases, inl, inr,
  if◌then◌else◌, arith,
}

-- `mem`, as a function of the address.
abbrev pub Memory : Type 0
Memory = ℕ → ℕ

-- `128 << 10`.
abbrev pub mem_size : ℕ
mem_size = 128 * 2 ^ 10

unfoldable pub read_data : Memory → ℕ → ℕ
read_data mem addr = if ltb addr mem_size then mem addr else 0

unfoldable pub write_data : ℕ → ℕ → Memory → Memory
write_data addr value mem =
    if ltb addr mem_size then (λ other. if other == addr then value else mem other) else mem

-- A byte written below `mem_size` is read back there; every other read is as before, and so are all
-- reads after a write out of range.
read_data-write_data :
    (mem : Memory) (addr value other : ℕ)
    → read_data (write_data addr value mem) other
      ≡ (if (other == addr) && ltb addr mem_size then value else read_data mem other)
unfolding read_data write_data
read_data-write_data mem addr value other = elim (Bool-cases (ltb addr mem_size)) [
  | inl small ↦ rw small (ground arith)
  | inr large ↦ rw large (ground arith)
]

pub read_data-write_here :
    (mem : Memory) (addr value : ℕ)
    → ltb addr mem_size ≡ true
    → read_data (write_data addr value mem) addr ≡ value
read_data-write_here mem addr value fits =
    let known = read_data-write_data mem addr value addr in ground arith

pub read_data-write_other :
    (mem : Memory) (addr value other : ℕ)
    → (other ≢ addr) ⊎ (ltb addr mem_size ≡ false)
    → read_data (write_data addr value mem) other ≡ read_data mem other
read_data-write_other mem addr value other apart =
    let known = read_data-write_data mem addr value other in ground arith

pub read_data-outside :
    (mem : Memory) (addr : ℕ) → ltb addr mem_size ≡ false → read_data mem addr ≡ 0
unfolding read_data
read_data-outside mem addr out = rw out refl
