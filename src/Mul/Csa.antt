-- ===== src/Mul/Csa.antt =====
-- The compressor tree of `MUL::calculateSC` in src/MUL/MUL.cpp, modulo 2 ^ 64.
use rv32im_simulator.Prelude.{ℕ, ◌+◌, ◌%◌, ◌^◌, ◌≡◌, arith}
use rv32im_simulator.Prelude.Bits.{full_adder}
use rv32im_simulator.Mul.{csa3, compress}

-- Equal modulo 2 ^ 64.
abbrev pub Same : ℕ → ℕ → Type 0
Same x y = x % 2 ^ 64 ≡ y % 2 ^ 64

csa3_sum : (x y z : ℕ) → Same ((csa3 x y z).sum + (csa3 x y z).carry) (x + y + z)
unfolding csa3
csa3_sum x y z = omega (arith, full_adder x y z)

-- The two words of the compressor tree add up modulo 2 ^ 64 to the sum of its nineteen rows.
pub compress_sum :
    (p : ℕ → ℕ)
    → Same ((compress p).sum + (compress p).carry) (
        p 0
        + p 1
        + p 2
        + p 3
        + p 4
        + p 5
        + p 6
        + p 7
        + p 8
        + p 9
        + p 10
        + p 11
        + p 12
        + p 13
        + p 14
        + p 15
        + p 16
        + p 17
        + p 18)
unfolding compress
compress_sum p =
    let a0 = csa3 (p 0) (p 1) (p 2) in
    let a1 = csa3 (p 3) (p 4) (p 5) in
    let a2 = csa3 (p 6) (p 7) (p 8) in
    let a3 = csa3 (p 9) (p 10) (p 11) in
    let a4 = csa3 (p 12) (p 13) (p 14) in
    let a5 = csa3 (p 15) (p 16) (p 17) in
    let b0 = csa3 a0.sum a0.carry a1.sum in
    let b1 = csa3 a1.carry a2.sum a2.carry in
    let b2 = csa3 a3.sum a3.carry a4.sum in
    let b3 = csa3 a4.carry a5.sum a5.carry in
    let c0 = csa3 b0.sum b0.carry b1.sum in
    let c1 = csa3 b1.carry b2.sum b2.carry in
    let c2 = csa3 b3.sum b3.carry (p 18) in
    let d0 = csa3 c0.sum c0.carry c1.sum in
    let d1 = csa3 c1.carry c2.sum c2.carry in
    let e0 = csa3 d0.sum d0.carry d1.sum in
    omega (
      arith,
      csa3_sum (p 0) (p 1) (p 2),
      csa3_sum (p 3) (p 4) (p 5),
      csa3_sum (p 6) (p 7) (p 8),
      csa3_sum (p 9) (p 10) (p 11),
      csa3_sum (p 12) (p 13) (p 14),
      csa3_sum (p 15) (p 16) (p 17),
      csa3_sum a0.sum a0.carry a1.sum,
      csa3_sum a1.carry a2.sum a2.carry,
      csa3_sum a3.sum a3.carry a4.sum,
      csa3_sum a4.carry a5.sum a5.carry,
      csa3_sum b0.sum b0.carry b1.sum,
      csa3_sum b1.carry b2.sum b2.carry,
      csa3_sum b3.sum b3.carry (p 18),
      csa3_sum c0.sum c0.carry c1.sum,
      csa3_sum c1.carry c2.sum c2.carry,
      csa3_sum d0.sum d0.carry d1.sum,
      csa3_sum e0.sum e0.carry d1.carry,
    )
