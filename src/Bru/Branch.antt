-- ===== src/Bru/Branch.antt =====
-- What a branch instruction decides, for the numbers that its operands stand for.
use rv32im_simulator.Prelude.{ℕ, ◌^◌, ◌<◌, ◌≡◌, not, ltb, arith}
use rv32im_simulator.Prelude.Int.{ltb_ℤ, signed32}
use rv32im_simulator.Types.{lt, ge, ltu, geu}
use rv32im_simulator.Bru.{taken}

-- On operands below 2 ^ 32 `blt` is taken when the first signed number is less and `bge`
-- otherwise, `bltu` when the first pattern is less and `bgeu` otherwise.
pub taken_signed :
    (a b : ℕ)
    → a < 2 ^ 32
    → b < 2 ^ 32
    → (taken lt a b ≡ ltb_ℤ (signed32 a) (signed32 b))
      × (taken ge a b ≡ not (ltb_ℤ (signed32 a) (signed32 b)))
      × (taken ltu a b ≡ ltb a b)
      × (taken geu a b ≡ not (ltb a b))
unfolding taken
taken_signed a b h k = (ground arith, ground arith, ground arith, ground arith)
