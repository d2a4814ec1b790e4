-- ===== src/Prelude/Words.antt =====
-- Machine words. A value of `w` bits is a native number below `2 ^ w`; an `int32_t` is its
-- two's complement bit pattern, as the hardware holds it.
use Prim.Native.Nat.{ℕ, ◌+◌, ◌-◌, ◌*◌, ◌/◌, ◌%◌, ◌^◌}
use mathlib.Core.Bool.{Bool}
use rv32im_simulator.Prelude.Tests.{ltb, leb, if◌then◌else◌}

-- `x & ((1 << k) - 1)`; the agreement is `Bits.bit_and-low_bits`.
abbrev pub low_bits : ℕ → ℕ → ℕ
low_bits k x = x % 2 ^ k

-- `~x` in `k` bits.
abbrev pub complement : ℕ → ℕ → ℕ
complement k x = 2 ^ k - 1 - x % 2 ^ k

-- Unsigned right shift.
infixl 60 ◌>>>◌ ◌<<<◌
abbrev pub ◌>>>◌ : ℕ → ℕ → ℕ
x >>> k = x / 2 ^ k

-- Left shift before the cast that cuts it to a width.
abbrev pub ◌<<<◌ : ℕ → ℕ → ℕ
x <<< k = x * 2 ^ k

abbrev pub u8 : ℕ → ℕ
u8 x = x % 2 ^ 8

abbrev pub u32 : ℕ → ℕ
u32 x = x % 2 ^ 32

abbrev pub u64 : ℕ → ℕ
u64 x = x % 2 ^ 64

abbrev pub add32 : ℕ → ℕ → ℕ
add32 a b = (a + b) % 2 ^ 32

-- `-` on ℕ stops at 0, so the modulus is added first.
abbrev pub sub32 : ℕ → ℕ → ℕ
sub32 a b = (a + 2 ^ 32 - b) % 2 ^ 32

-- The sign bit of an `int32_t`.
abbrev pub is_negative : ℕ → Bool
is_negative x = leb (2 ^ 31) x

-- `a < b` on `int32_t`: the order of the patterns with the sign bit turned over.
abbrev pub slt32 : ℕ → ℕ → Bool
slt32 a b = ltb ((a + 2 ^ 31) % 2 ^ 32) ((b + 2 ^ 31) % 2 ^ 32)

-- An `int32_t` widened to 64 bits.
abbrev pub sign_extend64 : ℕ → ℕ
sign_extend64 x = if is_negative x then x + (2 ^ 64 - 2 ^ 32) else x

-- `x >> n` on an `int32_t`, which copies the sign bit down.
abbrev pub sra32 : ℕ → ℕ → ℕ
sra32 x n = if is_negative x then complement 32 (complement 32 x >>> n) else x >>> n
