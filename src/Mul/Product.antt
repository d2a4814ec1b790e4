-- ===== src/Mul/Product.antt =====
-- The datapath of src/MUL/MUL.cpp as a whole, and the products that the instructions mean.
use mathlib.Core.Path.{subst}
use rv32im_simulator.Prelude.{
  ℕ, ◌+◌, ◌*◌, ◌/◌, ◌%◌, ◌^◌, ◌<◌, ◌≡◌, refl, ap, if◌then◌else◌, is_negative, sign_extend64, u64,
  get_or, arith, Bool-cases, inl, inr,
}
use rv32im_simulator.Prelude.Int.{
  ℤ, pos, negsuc, pos_part, neg_part, sub_ℕ, ◌*ℤ◌, signed32, to_word64,
}
use rv32im_simulator.Types.{Operation, mul, mulh, mulhu, mulhsu}
use rv32im_simulator.Mul.{
  booth_rows, booth_corrections, first_fixup, second_fixup, calculate_booth, calculate_sc,
  final_value,
}
use rv32im_simulator.Mul.Csa.{Same, compress_sum}
use rv32im_simulator.Mul.Booth.{sum, Same-mul, rounds_sum, carry_digit}

-- The sign bit as a number.
abbrev sign : ℕ → ℕ
sign x = if is_negative x then 1 else 0

sign_parts :
    (x : ℕ)
    → x < 2 ^ 32
    → (pos_part (signed32 x) + sign x * 2 ^ 32 ≡ x + neg_part (signed32 x))
      × Same (sign_extend64 x + neg_part (signed32 x)) (pos_part (signed32 x))
      × (sign_extend64 x < 2 ^ 64)
sign_parts x h = ground arith

to_word64-sub_ℕ : (x y : ℕ) → Same (to_word64 (sub_ℕ x y) + y) x
to_word64-sub_ℕ x y = ground arith

-- The rows without the fixups hold the second operand's signed reading.
booth_sum :
    (a b : ℕ)
    → a < 2 ^ 64
    → b < 2 ^ 32
    → Same (sum (booth_rows a b 16) + booth_corrections b 16 + sign b * (a * 2 ^ 32)) (a * b)
booth_sum a b h k =
    let top : carry_digit b 16 ≡ sign b = ground arith in
    let whole : b % 2 ^ 32 ≡ b = omega arith in
    rw (← top) (
      subst
        (λ w.
          Same (sum (booth_rows a b 16) + booth_corrections b 16 + carry_digit b 16 * (a * 2 ^ 32))
            (a * w))
        whole (rounds_sum a b 16 h (omega arith)))

signed_product :
    (r a b pa na pb nb s : ℕ)
    → Same (r + s * (a * 2 ^ 32)) (a * b)
    → Same (a + na) pa
    → pb + s * 2 ^ 32 ≡ b + nb
    → Same (r + (pa * nb + na * pb)) (pa * pb + na * nb)
signed_product r a b pa na pb nb s h ha hb =
    omega (arith, Same-mul (a + na) pa pb ha, Same-mul (a + na) pa nb ha, ap (λ (t : ℕ). t * a) hb)

-- The product that each operation means: `mul` and `mulh` read both operands as signed, `mulhsu` the
-- first one only, `mulhu` none.
abbrev pub exact : Operation → ℕ → ℕ → ℤ
exact mulhu a b = pos (a * b)
exact mulhsu a b = signed32 a *ℤ pos b
exact _ a b = signed32 a *ℤ signed32 b

-- The RISC-V result: the lower word for `mul`, the upper one for the others.
abbrev pub word_of : Operation → ℕ → ℕ
word_of mul p = p % 2 ^ 32
word_of _ p = p / 2 ^ 32

pub data IsMultiply : Operation → Type 0 where
  is_mul : IsMultiply mul
  is_mulh : IsMultiply mulh
  is_mulhu : IsMultiply mulhu
  is_mulhsu : IsMultiply mulhsu

-- All nineteen rows of a calculation.
row_total : Operation → ℕ → ℕ → ℕ
row_total op a b =
    sum (booth_rows (sign_extend64 a) b 16)
    + booth_corrections b 16
    + first_fixup op a b
    + second_fixup op a b

first_fixup_sum : (a b : ℕ) → b < 2 ^ 32 → first_fixup mulhu a b ≡ sign a * (b * 2 ^ 32)
unfolding first_fixup
first_fixup_sum a b h = ground arith

second_fixup_sum :
    (a b : ℕ)
    → Same (second_fixup mulhu a b) (sign b * (sign_extend64 a * 2 ^ 32))
      × Same (second_fixup mulhsu a b) (sign b * (sign_extend64 a * 2 ^ 32))
unfolding second_fixup
second_fixup_sum a b = elim (Bool-cases (is_negative b)) [
  | inl set ↦ rw set (omega arith, omega arith)
  | inr clear ↦ rw clear (omega arith, omega arith)
]

-- A sum of rows for the signed reading of the second operand is the signed product.
signed_rows :
    (r a b : ℕ)
    → a < 2 ^ 32
    → b < 2 ^ 32
    → Same (r + sign b * (sign_extend64 a * 2 ^ 32)) (sign_extend64 a * b)
    → Same r (to_word64 (signed32 a *ℤ signed32 b))
unfolding ◌*ℤ◌
signed_rows r a b h k e =
    let pa = pos_part (signed32 a) in
    let na = neg_part (signed32 a) in
    let pb = pos_part (signed32 b) in
    let nb = neg_part (signed32 b) in
    omega (
      arith,
      signed_product r (sign_extend64 a) b pa na pb nb (sign b) e (sign_parts a h).1
          (sign_parts b k).0,
      to_word64-sub_ℕ (pa * pb + na * nb) (pa * nb + na * pb),
    )

half_signed_rows :
    (r a b : ℕ)
    → a < 2 ^ 32
    → Same r (sign_extend64 a * b)
    → Same r (to_word64 (signed32 a *ℤ pos b))
unfolding ◌*ℤ◌
half_signed_rows r a b h e =
    let pa = pos_part (signed32 a) in
    let na = neg_part (signed32 a) in
    omega (
      arith,
      Same-mul (sign_extend64 a + na) pa b (sign_parts a h).1,
      to_word64-sub_ℕ (pa * b + na * 0) (pa * 0 + na * b),
      e,
    )

unsigned_rows :
    (r a b : ℕ)
    → a < 2 ^ 32
    → Same r (sign_extend64 a * b)
    → Same (r + sign a * (b * 2 ^ 32)) (a * b)
unsigned_rows r a b h e = elim (Bool-cases (is_negative a)) [
  | inl set ↦ rw set (omega (arith, rw set at e))
  | inr clear ↦ rw clear (omega (arith, rw clear at e))
]

no_fixups :
    (a b : ℕ)
    → (first_fixup mul a b ≡ 0)
      × (second_fixup mul a b ≡ 0)
      × (first_fixup mulh a b ≡ 0)
      × (second_fixup mulh a b ≡ 0)
      × (first_fixup mulhsu a b ≡ 0)
unfolding first_fixup second_fixup
no_fixups a b = (refl, refl, refl, refl, refl)

row_total-exact :
    {op : Operation} (a b : ℕ)
    → IsMultiply op
    → a < 2 ^ 32
    → b < 2 ^ 32
    → Same (row_total op a b) (to_word64 (exact op a b))
unfolding row_total
row_total-exact a b is_mul h k =
    signed_rows (row_total mul a b) a b h k
      (omega (arith, no_fixups a b, booth_sum (sign_extend64 a) b (sign_parts a h).2 k))
row_total-exact a b is_mulh h k =
    signed_rows (row_total mulh a b) a b h k
      (omega (arith, no_fixups a b, booth_sum (sign_extend64 a) b (sign_parts a h).2 k))
row_total-exact a b is_mulhu h k =
    let r =
      sum (booth_rows (sign_extend64 a) b 16) + booth_corrections b 16 + second_fixup mulhu a b in
    omega (
      arith,
      first_fixup_sum a b k,
      unsigned_rows r a b h
          (omega (arith, second_fixup_sum a b, booth_sum (sign_extend64 a) b (sign_parts a h).2 k)),
    )
row_total-exact a b is_mulhsu h k = half_signed_rows (row_total mulhsu a b) a b h (
    omega (
      arith,
      no_fixups a b,
      second_fixup_sum a b,
      booth_sum (sign_extend64 a) b (sign_parts a h).2 k,
    ))

-- The tree adds up the rows of a calculation.
calculate_sc_sum :
    (op : Operation) (a b tag : ℕ)
    → let sc = calculate_sc (calculate_booth a b tag op) in
      Same (sc.s_word + sc.c_word) (row_total op a b)
unfolding row_total calculate_sc calculate_booth booth_rows
calculate_sc_sum op a b tag =
    omega (arith, compress_sum (λ i. get_or (calculate_booth a b tag op).partial_product i 0))

to_word64-lt : (z : ℤ) → to_word64 z < 2 ^ 64
to_word64-lt (pos n) = omega arith
to_word64-lt (negsuc n) = omega arith

datapath :
    {op : Operation} (a b tag : ℕ)
    → IsMultiply op
    → a < 2 ^ 32
    → b < 2 ^ 32
    → let sc = calculate_sc (calculate_booth a b tag op) in
      u64 (sc.s_word + sc.c_word) ≡ to_word64 (exact op a b)
datapath {op} a b tag m h k =
    omega
      (arith, calculate_sc_sum op a b tag, row_total-exact a b m h k, to_word64-lt (exact op a b))

-- For `mul`, `mulh`, `mulhu` and `mulhsu` and operands below 2 ^ 32, the Booth rows, the
-- compressor tree and the final adder give the word that RISC-V defines: the lower half of the
-- product for `mul`, the upper half of the signed, unsigned and mixed product for the others.
pub multiply_correct :
    {op : Operation} (a b tag old : ℕ)
    → IsMultiply op
    → a < 2 ^ 32
    → b < 2 ^ 32
    → let sc = calculate_sc (calculate_booth a b tag op) in
      final_value op (u64 (sc.s_word + sc.c_word)) old ≡ word_of op (to_word64 (exact op a b))
unfolding final_value
multiply_correct a b tag old is_mul h k = ap (λ w. w % 2 ^ 32) (datapath a b tag is_mul h k)
multiply_correct a b tag old is_mulh h k = ap (λ w. w / 2 ^ 32) (datapath a b tag is_mulh h k)
multiply_correct a b tag old is_mulhu h k = ap (λ w. w / 2 ^ 32) (datapath a b tag is_mulhu h k)
multiply_correct a b tag old is_mulhsu h k = ap (λ w. w / 2 ^ 32) (datapath a b tag is_mulhsu h k)
