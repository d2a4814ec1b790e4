-- ===== src/Prelude/Bits.antt =====
-- Laws of the native bit operations at variables: the digits one by one, the full adder, and fields.
use Prim.Native.Nat.{
  ℕ, zero, suc, ◌+◌, ◌-◌, ◌*◌, ◌/◌, ◌%◌, ◌^◌, ◌≤◌, ◌<◌, min, max, bit_and, bit_or, bit_xor, digits,
  bitwise, differ, bit_and-bitwise, bit_or-bitwise, bit_xor-bitwise,
}
use mathlib.Core.Path.{◌≡◌, refl, ap}
use native.Mathlib.Nat.{pow-suc, one-le-pow}
use native.Mathlib.Omega.{arith}

-- Fuel that covers the first operand gives what `bitwise` gives.
module _ (tail : ℕ → ℕ) (op : ℕ → ℕ → ℕ) where
  covered :
      (bound fuel x y : ℕ) → fuel ≤ bound → x ≤ fuel → digits tail op fuel x y ≡ bitwise tail op x y
  covered bound zero zero y h k = refl
  covered bound (suc fuel) zero y h k = refl
  covered bound zero (suc x) y h k = absurd (omega arith)
  covered zero (suc fuel) (suc x) y h k = absurd (omega arith)
  covered (suc bound) (suc fuel) (suc x) y h k =
      let half = suc x / 2 in
      omega (
        arith,
        covered bound fuel half (y / 2) (omega arith) (omega arith),
        covered bound x half (y / 2) (omega arith) (omega arith),
      )

  lowest_digit :
      (x y : ℕ)
      → (bitwise tail op (suc x) y
          ≡ op (suc x % 2) (y % 2) + 2 * bitwise tail op (suc x / 2) (y / 2))
  lowest_digit x y = omega (arith, covered x x (suc x / 2) (y / 2) (omega arith) (omega arith))

-- Upper digits and lowest digit of each operation.
bit_or_half :
    (x y : ℕ) → (bit_or x y / 2 ≡ bit_or (x / 2) (y / 2)) × (bit_or x y % 2 ≡ max (x % 2) (y % 2))
bit_or_half zero y = omega (arith, bit_or-bitwise 0 y, bit_or-bitwise 0 (y / 2))
bit_or_half (suc x) y = omega (
  arith,
  bit_or-bitwise (suc x) y,
  bit_or-bitwise (suc x / 2) (y / 2),
  lowest_digit (λ t. t) max x y,
)

bit_and_half :
    (x y : ℕ)
    → (bit_and x y / 2 ≡ bit_and (x / 2) (y / 2)) × (bit_and x y % 2 ≡ min (x % 2) (y % 2))
bit_and_half zero y = omega (arith, bit_and-bitwise 0 y, bit_and-bitwise 0 (y / 2))
bit_and_half (suc x) y = omega (
  arith,
  bit_and-bitwise (suc x) y,
  bit_and-bitwise (suc x / 2) (y / 2),
  lowest_digit (λ t. 0) min x y,
)

differ-eq-sub : (x y : ℕ) → differ x y ≡ max x y - min x y
differ-eq-sub zero y = omega arith
differ-eq-sub (suc x) zero = omega arith
differ-eq-sub (suc x) (suc y) = omega (arith, differ-eq-sub x y)

bit_xor_half :
    (x y : ℕ)
    → (bit_xor x y / 2 ≡ bit_xor (x / 2) (y / 2))
      × (bit_xor x y % 2 ≡ max (x % 2) (y % 2) - min (x % 2) (y % 2))
bit_xor_half zero y = omega (arith, bit_xor-bitwise 0 y, bit_xor-bitwise 0 (y / 2))
bit_xor_half (suc x) y = omega (
  arith,
  bit_xor-bitwise (suc x) y,
  bit_xor-bitwise (suc x / 2) (y / 2),
  lowest_digit (λ t. t) differ x y,
  differ-eq-sub (suc x % 2) (y % 2),
)

-- The two outputs of a row of full adders.
abbrev pub xor3 : ℕ → ℕ → ℕ → ℕ
xor3 a b c = bit_xor (bit_xor a b) c

abbrev pub majority : ℕ → ℕ → ℕ → ℕ
majority a b c = bit_or (bit_or (bit_and a b) (bit_and a c)) (bit_and b c)

xor3_step :
    (a b c : ℕ) → xor3 a b c ≡ xor3 (a / 2) (b / 2) (c / 2) * 2 + (a % 2 + b % 2 + c % 2) % 2
xor3_step a b c = ground (arith, bit_xor_half (bit_xor a b) c, bit_xor_half a b)

majority_step :
    (a b c : ℕ)
    → majority a b c ≡ majority (a / 2) (b / 2) (c / 2) * 2 + (a % 2 + b % 2 + c % 2) / 2
majority_step a b c = ground (
  arith,
  bit_or_half (bit_or (bit_and a b) (bit_and a c)) (bit_and b c),
  bit_or_half (bit_and a b) (bit_and a c),
  bit_and_half a b,
  bit_and_half a c,
  bit_and_half b c,
)

full_adder_fuel :
    (n a b c : ℕ) → a ≤ n → b ≤ n → c ≤ n → xor3 a b c + majority a b c * 2 ≡ a + b + c
full_adder_fuel zero zero zero zero p q r = refl
full_adder_fuel zero zero zero (suc c) p q r = absurd (omega arith)
full_adder_fuel zero zero (suc b) c p q r = absurd (omega arith)
full_adder_fuel zero (suc a) b c p q r = absurd (omega arith)
full_adder_fuel (suc n) a b c p q r = omega (
  arith,
  xor3_step a b c,
  majority_step a b c,
  full_adder_fuel n (a / 2) (b / 2) (c / 2) (omega arith) (omega arith) (omega arith),
)

-- A row of full adders: the sum digits and twice the carry digits add up to the three inputs.
pub full_adder : (a b c : ℕ) → xor3 a b c + majority a b c * 2 ≡ a + b + c
full_adder a b c = full_adder_fuel (a + b + c) a b c (omega arith) (omega arith) (omega arith)

-- A word and a multiple of a power of two above it have no digit in common: their `|` is the sum.
pub bit_or_fields : (k q r : ℕ) → r < 2 ^ k → bit_or r (q * 2 ^ k) ≡ r + q * 2 ^ k
bit_or_fields zero q zero below = ground (arith, bit_or-bitwise 0 (q * 2 ^ 0))
bit_or_fields zero q (suc r) below = absurd (omega arith)
bit_or_fields (suc k) q r below =
    let twice : 2 ^ suc k ≡ 2 * 2 ^ k = omega (arith, pow-suc 2 k) in
    let even : q * 2 ^ suc k ≡ 2 * (q * 2 ^ k) = omega (arith, ap (λ (t : ℕ). q * t) twice) in
    let upper : bit_or (r / 2) (q * 2 ^ k) ≡ r / 2 + q * 2 ^ k =
      bit_or_fields k q (r / 2) (omega arith) in
    rw even (ground (arith, bit_or_half r (2 * (q * 2 ^ k)), upper))

-- A row of half adders.
half_adder_fuel : (n a b : ℕ) → a ≤ n → b ≤ n → bit_xor a b + bit_and a b * 2 ≡ a + b
half_adder_fuel zero zero zero p q = refl
half_adder_fuel zero zero (suc b) p q = absurd (omega arith)
half_adder_fuel zero (suc a) b p q = absurd (omega arith)
half_adder_fuel (suc n) a b p q = ground (
  arith,
  bit_xor_half a b,
  bit_and_half a b,
  half_adder_fuel n (a / 2) (b / 2) (omega arith) (omega arith),
)

pub half_adder : (a b : ℕ) → bit_xor a b + bit_and a b * 2 ≡ a + b
half_adder a b = half_adder_fuel (a + b) a b (omega arith) (omega arith)

-- `^` with a mask of `k` ones is the complement in `k` bits.
pub bit_xor-mask : (k x : ℕ) → x < 2 ^ k → bit_xor (2 ^ k - 1) x + x ≡ 2 ^ k - 1
bit_xor-mask zero zero h = refl
bit_xor-mask zero (suc x) h = absurd (omega arith)
bit_xor-mask (suc k) x h =
    let twice : 2 ^ suc k ≡ 2 * 2 ^ k = omega (arith, pow-suc 2 k) in
    let positive : 0 < 2 ^ k = one-le-pow k 2 (omega arith) in
    let rest : 2 * 2 ^ k - 1 ≡ 2 * (2 ^ k - 1) + 1 = omega arith in
    rw twice (ground (arith, bit_xor_half (2 * 2 ^ k - 1) x, bit_xor-mask k (x / 2) (omega arith)))

bit_and-zero : (bound x : ℕ) → x ≤ bound → bit_and x 0 ≡ 0
bit_and-zero bound zero h = bit_and-bitwise 0 0
bit_and-zero zero (suc x) h = absurd (omega arith)
bit_and-zero (suc bound) (suc x) h =
    ground (arith, bit_and_half (suc x) 0, bit_and-zero bound (suc x / 2) (omega arith))

split_mod : (k x : ℕ) → x % 2 ^ suc k ≡ 2 * (x / 2 % 2 ^ k) + x % 2
split_mod k x =
    let twice : 2 ^ suc k ≡ 2 * 2 ^ k = omega (arith, pow-suc 2 k) in
    rw twice (grind (arith, one-le-pow k 2))

-- `&` with a mask of `k` ones is the remainder modulo 2 ^ k.
bit_and-low_bits : (k x : ℕ) → bit_and x (2 ^ k - 1) ≡ x % 2 ^ k
bit_and-low_bits zero x = omega (arith, bit_and-zero x x (omega arith))
bit_and-low_bits (suc k) x = ground (
  arith,
  pow-suc 2 k,
  one-le-pow k 2,
  split_mod k x,
  bit_and_half x (2 ^ suc k - 1),
  bit_and-low_bits k (x / 2),
)

pub bit_or-zero : (bound x : ℕ) → x ≤ bound → bit_or x 0 ≡ x
bit_or-zero bound zero h = refl
bit_or-zero zero (suc x) h = absurd (omega arith)
bit_or-zero (suc bound) (suc x) h =
    ground (arith, bit_or_half (suc x) 0, bit_or-zero bound (suc x / 2) (omega arith))

-- A one below a shifted word, and two bits below a word shifted by two.
pub bit_or_one : (x : ℕ) → bit_or (x * 2) 1 ≡ x * 2 + 1
bit_or_one x = ground (arith, bit_or_half (x * 2) 1, bit_or-zero x x (omega arith))

pub bit_or_two : (x c : ℕ) → c < 4 → bit_or (x * 4) c ≡ x * 4 + c
bit_or_two x c h =
    ground
      (arith, bit_or_half (x * 4) c, bit_or_half (x * 2) (c / 2), bit_or-zero x x (omega arith))

bit_or_comm_fuel : (n x y : ℕ) → x ≤ n → y ≤ n → bit_or x y ≡ bit_or y x
bit_or_comm_fuel zero zero zero p q = refl
bit_or_comm_fuel zero zero (suc y) p q = absurd (omega arith)
bit_or_comm_fuel zero (suc x) y p q = absurd (omega arith)
bit_or_comm_fuel (suc n) x y p q = ground (
  arith,
  bit_or_half x y,
  bit_or_half y x,
  bit_or_comm_fuel n (x / 2) (y / 2) (omega arith) (omega arith),
)

pub bit_or_comm : (x y : ℕ) → bit_or x y ≡ bit_or y x
bit_or_comm x y = bit_or_comm_fuel (x + y) x y (omega arith) (omega arith)

-- A field of `w` bits at place `k` goes between the bits above it and those below it.
bit_or_insert :
    (w k hi lo c : ℕ)
    → lo < 2 ^ k
    → c < 2 ^ w
    → bit_or (hi * 2 ^ w * 2 ^ k + lo) (c * 2 ^ k) ≡ hi * 2 ^ w * 2 ^ k + lo + c * 2 ^ k
bit_or_insert w zero hi lo c h p =
    let upper : hi * 2 ^ w * 2 ^ 0 + lo ≡ hi * 2 ^ w = omega arith in
    let field : c * 2 ^ 0 ≡ c = omega arith in
    rw (upper, field) (omega (arith, bit_or_comm (hi * 2 ^ w) c, bit_or_fields w hi c p))
bit_or_insert w (suc k) hi lo c h p =
    let upper : hi * 2 ^ w * 2 ^ suc k ≡ 2 * (hi * 2 ^ w * 2 ^ k) =
      omega (arith, ap (λ (t : ℕ). hi * 2 ^ w * t) (pow-suc 2 k)) in
    let field : c * 2 ^ suc k ≡ 2 * (c * 2 ^ k) =
      omega (arith, ap (λ (t : ℕ). c * t) (pow-suc 2 k)) in
    let below : lo / 2 < 2 ^ k = omega (arith, pow-suc 2 k) in
    let half : (2 * (hi * 2 ^ w * 2 ^ k) + lo) / 2 ≡ hi * 2 ^ w * 2 ^ k + lo / 2 = omega arith in
    let half_field : 2 * (c * 2 ^ k) / 2 ≡ c * 2 ^ k = omega arith in
    rw (upper, field)
      (ground (
        arith,
        bit_or_half (2 * (hi * 2 ^ w * 2 ^ k) + lo) (2 * (c * 2 ^ k)),
        half,
        half_field,
        bit_or_insert w k hi (lo / 2) c below p,
      ))

pub bit_or_field :
    (w k hi lo x c : ℕ)
    → x ≡ hi * 2 ^ w * 2 ^ k + lo
    → lo < 2 ^ k
    → c < 2 ^ w
    → bit_or x (c * 2 ^ k) ≡ x + c * 2 ^ k
bit_or_field w k hi lo x c e h p = rw e (bit_or_insert w k hi lo c h p)
