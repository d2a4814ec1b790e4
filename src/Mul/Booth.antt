-- ===== src/Mul/Booth.antt =====
-- The Booth rows of `MUL::calculateBooth` in src/MUL/MUL.cpp and their corrections, modulo 2 ^ 64.
use native.Mathlib.Nat.{
  pow-suc, one-le-pow, pow-le-pow_right, mod-lt, mod-eq_of_lt, add-mul-mod_self_right, div-add-mod',
  div-div-eq-div-mul,
}
use native.Mathlib.Numerals.{add-one}
use rv32im_simulator.Prelude.{
  ℕ, zero, suc, ◌+◌, ◌-◌, ◌*◌, ◌/◌, ◌%◌, ◌^◌, ◌≤◌, ◌<◌, ◌≡◌, ◌∙◌, ap, if◌then◌else◌, ◌==◌, List, [],
  ◌∷◌, ◌++◌, arith, Bool-cases, inl, inr,
}
use rv32im_simulator.Prelude.Bits.{bit_or_fields}
use rv32im_simulator.Mul.{triple, multiple, is_subtracted, booth_row, booth_rows, booth_corrections}
use rv32im_simulator.Mul.Csa.{Same}

abbrev pub sum : List ℕ → ℕ
sum [] = 0
sum (x ∷ xs) = x + sum xs

sum-append : (xs ys : List ℕ) → sum (xs ++ ys) ≡ sum xs + sum ys
sum-append [] ys = omega arith
sum-append (x ∷ xs) ys = omega (arith, sum-append xs ys)

-- How often a row is added and how often it is subtracted.
abbrev added : ℕ → ℕ
added t = if (t == 1) then 1 else if t == 2 then 1 else if t == 3 then 2 else 0

abbrev subtracted : ℕ → ℕ
subtracted t = if t == 4 then 2 else if t == 5 then 1 else if t == 6 then 1 else 0

-- A row before it is shifted, with the one that completes its complement, is the multiple of `a` that the digit asks for.
abbrev row_word : ℕ → ℕ → ℕ
row_word a t = if is_subtracted t then 2 ^ 64 - 1 - multiple a t % 2 ^ 64 else multiple a t

abbrev correction : ℕ → ℕ
correction t = if is_subtracted t then 1 else 0

row_word_sum :
    (a t : ℕ)
    → a < 2 ^ 64
    → t < 8
    → Same (row_word a t + correction t + subtracted t * a) (added t * a)
unfolding multiple is_subtracted
row_word_sum a t h k = ground arith

-- Scaling keeps a congruence.
pub Same-mul : (x y z : ℕ) → Same x y → Same (x * z) (y * z)
Same-mul x y z h = omega (
  arith,
  ap (λ (t : ℕ). t * z) h,
  ap (λ (t : ℕ). t * z) (div-add-mod' x (2 ^ 64)),
  ap (λ (t : ℕ). t * z) (div-add-mod' y (2 ^ 64)),
)

pow_odd : (n : ℕ) → 2 ^ (n * 2 + 1) ≡ 2 * 2 ^ (n * 2)
pow_odd n = rw (add-one (n * 2)) (omega (arith, pow-suc 2 (n * 2)))

pow_even : (n : ℕ) → 2 ^ (suc n * 2) ≡ 4 * 2 ^ (n * 2)
pow_even n =
    let e : suc n * 2 ≡ suc (suc (n * 2)) = omega arith in
    rw e (omega (arith, pow-suc 2 (n * 2), pow-suc 2 (suc (n * 2))))

-- The carry digit below position 2n of the operand.
abbrev pub carry_digit : ℕ → ℕ → ℕ
carry_digit b zero = 0
carry_digit b (suc n) = b / 2 ^ (n * 2 + 1) % 2

triple_digits :
    (b n : ℕ)
    → triple b n ≡ carry_digit b n + 2 * (b / 2 ^ (n * 2) % 2) + 4 * (b / 2 ^ (n * 2 + 1) % 2)
unfolding triple
triple_digits b zero = omega arith
triple_digits b (suc n) =
    let e : suc n * 2 - 1 ≡ n * 2 + 1 = omega arith in
    let p = 2 ^ (n * 2) in
    rw (e, pow_odd n, pow_odd (suc n), pow_even n)
      (ground (arith, div-div-eq-div-mul b p 2, div-div-eq-div-mul b p 4, div-div-eq-div-mul b p 8))

-- The digit of a window is its two lower places less twice its upper one.
digit_balance :
    (c lo hi : ℕ)
    → c < 2
    → lo < 2
    → hi < 2
    → added (c + 2 * lo + 4 * hi) + 2 * hi ≡ subtracted (c + 2 * lo + 4 * hi) + c + lo
digit_balance c lo hi h k l = ground arith

carry_digit-lt : (b n : ℕ) → carry_digit b n < 2
carry_digit-lt b zero = omega arith
carry_digit-lt b (suc n) = omega arith

scale_row :
    (w c s d a p : ℕ)
    → Same (w + c + s * a) (d * a)
    → Same ((w * p) % 2 ^ 64 + c * p + s * (a * p)) (d * (a * p))
scale_row w c s d a p h = omega (arith, Same-mul (w + c + s * a) (d * a) p h)

triple-lt : (b n : ℕ) → triple b n < 8
unfolding triple
triple-lt b n = ground arith

row_sum :
    (a b n : ℕ)
    → a < 2 ^ 64
    → Same
        (booth_row a b n
          + correction (triple b n) * 2 ^ (n * 2)
          + subtracted (triple b n) * (a * 2 ^ (n * 2)))
        (added (triple b n) * (a * 2 ^ (n * 2)))
unfolding booth_row
row_sum a b n h =
    let t = triple b n in
    scale_row (row_word a t) (correction t) (subtracted t) (added t) a (2 ^ (n * 2))
      (row_word_sum a t h (triple-lt b n))

-- One more pair of binary digits.
mod-four-mul : (b p : ℕ) → 0 < p → b % (4 * p) ≡ b % p + (b / p % 2 + 2 * (b / (2 * p) % 2)) * p
mod-four-mul b p h =
    let q = b / p in
    let upper = q % 2 + 2 * (b / (2 * p) % 2) in
    let halves : b / (2 * p) ≡ q / 2 = ground (arith, div-div-eq-div-mul b p 2) in
    let digits : q ≡ upper + 4 * (q / 4) = omega arith in
    let bound : upper ≤ 3 = omega arith in
    let scaled : upper * p ≤ 3 * p = grind arith in
    let split : b ≡ b % p + upper * p + q / 4 * (4 * p) =
      omega (arith, div-add-mod' b p, ap (λ (t : ℕ). t * p) digits) in
    let small : b % p + upper * p < 4 * p = omega (arith, mod-lt b h) in
    ap (λ t. t % (4 * p)) split
    ∙ add-mul-mod_self_right (b % p + upper * p) (q / 4) (4 * p)
    ∙ mod-eq_of_lt small

one-le-two-pow : (n : ℕ) → 0 < 2 ^ n
one-le-two-pow n = one-le-pow n 2 (omega arith)

corrections_step :
    (b n : ℕ)
    → n ≤ 16
    → booth_corrections b n < 2 ^ (n * 2)
    → booth_corrections b (suc n) ≡ booth_corrections b n + correction (triple b n) * 2 ^ (n * 2)
unfolding booth_corrections
corrections_step b n h k =
    let fits : 1 * 2 ^ (n * 2) < 2 ^ 64 =
      omega (arith, pow-le-pow_right {n = 2} (omega arith) {i = n * 2} {j = 32} (omega arith)) in
    elim (Bool-cases (is_subtracted (triple b n))) [
      | inl set ↦ rw (set, mod-eq_of_lt fits) (bit_or_fields (n * 2) 1 (booth_corrections b n) k)
      | inr clear ↦ rw clear (omega arith)
    ]

correction-le : (t : ℕ) → correction t ≤ 1
correction-le t = ground arith

corrections-lt : (b n : ℕ) → n ≤ 17 → booth_corrections b n < 2 ^ (n * 2)
unfolding booth_corrections
corrections-lt b zero h = omega arith
corrections-lt b (suc n) h =
    let ih = corrections-lt b n (omega arith) in
    let le = correction-le (triple b n) in
    let scaled : correction (triple b n) * 2 ^ (n * 2) ≤ 1 * 2 ^ (n * 2) = grind arith in
    omega (arith, pow_even n, corrections_step b n (omega arith) ih)

-- The bookkeeping of one round, over the products that it moves.
round_step :
    (rows corr row k sq dq cq lq hq low : ℕ)
    → Same (rows + corr + cq) low
    → Same (row + k + sq) dq
    → dq + 2 * hq ≡ sq + cq + lq
    → Same (rows + row + (corr + k) + 4 * hq) (low + lq + 2 * hq)
round_step rows corr row k sq dq cq lq hq low h r e = omega arith

-- For a multiplicand below 2 ^ 64, after at most 16 rounds of the Booth loop the rows and their
-- corrections, with the carry digit of the next row, add up modulo 2 ^ 64 to the product with the
-- multiplier's bits read so far.
pub rounds_sum :
    (a b n : ℕ)
    → a < 2 ^ 64
    → n ≤ 16
    → Same
        (sum (booth_rows a b n) + booth_corrections b n + carry_digit b n * (a * 2 ^ (n * 2)))
        (a * (b % 2 ^ (n * 2)))
unfolding booth_rows booth_corrections
rounds_sum a b zero h k = let none : b % 2 ^ (0 * 2) ≡ 0 = omega arith in rw none (omega arith)
rounds_sum a b (suc n) h k =
    let p = 2 ^ (n * 2) in
    let c = carry_digit b n in
    let lo = b / p % 2 in
    let hi = b / (2 * p) % 2 in
    let t = triple b n in
    let window : t ≡ c + 2 * lo + 4 * hi = rw (← pow_odd n) (triple_digits b n) in
    let balance : added t + 2 * hi ≡ subtracted t + c + lo =
      rw window (digit_balance c lo hi (carry_digit-lt b n) (omega arith) (omega arith)) in
    let step =
      round_step (sum (booth_rows a b n)) (booth_corrections b n) (booth_row a b n)
        (correction t * p) (subtracted t * (a * p)) (added t * (a * p)) (c * (a * p)) (lo * (a * p))
        (hi * (a * p)) (a * (b % p)) (rounds_sum a b n h (omega arith)) (row_sum a b n h)
        (omega (arith, ap (λ (x : ℕ). x * (a * p)) balance)) in
    rw
      (
        sum-append (booth_rows a b n) (booth_row a b n ∷ []),
        corrections_step b n (omega arith) (corrections-lt b n (omega arith)),
        pow_even n,
        pow_odd n,
        mod-four-mul b p (one-le-two-pow (n * 2)),
      )
      (omega (arith, step))
