-- ===== src/Common/Bits.antt =====
-- Laws of `&` and `|` that the decoders need: `|` of parts that share no digit is their sum, and `&`
-- with a mask of ones is a remainder.
use Prim.Native.Nat.{
  ℕ, zero, suc, ◌+◌, ◌*◌, ◌/◌, ◌%◌, ◌^◌, ◌≤◌, ◌<◌, min, max, bit_and, bit_or, bit_xor, digits,
  differ, bit_and-bitwise, bit_or-bitwise, bit_xor-bitwise,
}
use mathlib.Core.Logic.{◌↔◌}
use mathlib.Core.Path.{◌≡◌, refl}
use native.Mathlib.Nat.{pow-suc}
use native.Mathlib.Omega.{arith}

-- The recursion on digits, whatever it does with a pair of digits and with the rest of `b`, does not
-- depend on the count of digits once that count is enough.
module _ (rest : ℕ → ℕ) (f : ℕ → ℕ → ℕ) where
  digits_count : (n m a b : ℕ) → a ≤ n → a ≤ m → digits rest f n a b ≡ digits rest f m a b
  digits_count zero zero a b p q = refl
  digits_count zero (suc m) zero b p q = refl
  digits_count (suc n) zero zero b p q = refl
  digits_count (suc n) (suc m) zero b p q = refl
  digits_count zero m (suc a) b p q = absurd (omega arith)
  digits_count n zero (suc a) b p q = absurd (omega arith)
  digits_count (suc n) (suc m) (suc a) b p q =
      omega (arith, digits_count n m (suc a / 2) (b / 2) (omega arith) (omega arith))

bit_or_zero : (b : ℕ) → bit_or 0 b ≡ b
bit_or_zero b = bit_or-bitwise 0 b

or_last_digit : (a b : ℕ) → bit_or a b ≡ bit_or (a / 2) (b / 2) * 2 + max (a % 2) (b % 2)
or_last_digit zero b = omega (arith, bit_or_zero b, bit_or_zero (b / 2))
or_last_digit (suc a) b = omega (
  arith,
  bit_or-bitwise (suc a) b,
  bit_or-bitwise (suc a / 2) (b / 2),
  digits_count (λ r. r) max a (suc a / 2) (suc a / 2) (b / 2) (omega arith) (omega arith),
)

and_last_digit : (a b : ℕ) → bit_and a b ≡ bit_and (a / 2) (b / 2) * 2 + min (a % 2) (b % 2)
and_last_digit zero b = omega (arith, bit_and-bitwise 0 b, bit_and-bitwise 0 (b / 2))
and_last_digit (suc a) b = omega (
  arith,
  bit_and-bitwise (suc a) b,
  bit_and-bitwise (suc a / 2) (b / 2),
  digits_count (λ r. 0) min a (suc a / 2) (suc a / 2) (b / 2) (omega arith) (omega arith),
)

-- By halving, over a bound on `a`.
or_zero_within : (n a : ℕ) → a ≤ n → bit_or a 0 ≡ a
or_zero_within n zero h = bit_or_zero 0
or_zero_within zero (suc a) h = absurd (omega arith)
or_zero_within (suc n) (suc a) h =
    omega (arith, or_last_digit (suc a) 0, or_zero_within n (suc a / 2) (omega arith))

half_of_double : (m x : ℕ) → (x * (m * 2)) / 2 ≡ x * m
half_of_double m x = omega arith

or_doubled :
    (m x y : ℕ) → bit_or (x * m) (y / 2) ≡ x * m + y / 2 → bit_or (x * (m * 2)) y ≡ x * (m * 2) + y
or_doubled m x y ih =
    let last : bit_or (x * (m * 2)) y ≡ bit_or (x * m) (y / 2) * 2 + max (x * (m * 2) % 2) (y % 2) =
      rw (half_of_double m x) at (or_last_digit (x * (m * 2)) y) in
    omega (arith, last, ih)

-- Digits above `k` and digits below it.
pub bit_or_disjoint : (k x y : ℕ) → y < 2 ^ k → bit_or (x * 2 ^ k) y ≡ x * 2 ^ k + y
bit_or_disjoint zero x zero h = omega (arith, or_zero_within (x * 2 ^ 0) (x * 2 ^ 0))
bit_or_disjoint zero x (suc y) h = absurd (omega arith)
bit_or_disjoint (suc k) x y h =
    let lt : y < 2 ^ k * 2 = rw (pow-suc 2 k) at h in
    rw (pow-suc 2 k) (or_doubled (2 ^ k) x y (bit_or_disjoint k x (y / 2) (omega arith)))

and_zero_within : (n a : ℕ) → a ≤ n → bit_and a 0 ≡ 0
and_zero_within n zero h = bit_and-bitwise 0 0
and_zero_within zero (suc a) h = absurd (omega arith)
and_zero_within (suc n) (suc a) h =
    omega (arith, and_last_digit (suc a) 0, and_zero_within n (suc a / 2) (omega arith))

and_1 : (a : ℕ) → bit_and a 1 ≡ a % 2
and_1 a = omega (arith, and_last_digit a 1, and_zero_within (a / 2) (a / 2))

-- Masks of two to six ones.
pub bit_and_3 : (a : ℕ) → bit_and a 0x03 ≡ a % 4
bit_and_3 a = omega (arith, and_last_digit a 3, and_1 (a / 2))

pub bit_and_7 : (a : ℕ) → bit_and a 0x07 ≡ a % 8
bit_and_7 a = omega (arith, and_last_digit a 7, bit_and_3 (a / 2))

pub bit_and_15 : (a : ℕ) → bit_and a 0x0f ≡ a % 16
bit_and_15 a = omega (arith, and_last_digit a 15, bit_and_7 (a / 2))

pub bit_and_31 : (a : ℕ) → bit_and a 0x1f ≡ a % 32
bit_and_31 a = omega (arith, and_last_digit a 31, bit_and_15 (a / 2))

pub bit_and_63 : (a : ℕ) → bit_and a 0x3f ≡ a % 64
bit_and_63 a = omega (arith, and_last_digit a 63, bit_and_31 (a / 2))

xor_last_digit : (a b : ℕ) → bit_xor a b ≡ bit_xor (a / 2) (b / 2) * 2 + differ (a % 2) (b % 2)
xor_last_digit zero b = omega (arith, bit_xor-bitwise 0 b, bit_xor-bitwise 0 (b / 2))
xor_last_digit (suc a) b = omega (
  arith,
  bit_xor-bitwise (suc a) b,
  bit_xor-bitwise (suc a / 2) (b / 2),
  digits_count (λ r. r) differ a (suc a / 2) (suc a / 2) (b / 2) (omega arith) (omega arith),
)

or_zero_both : (n a b : ℕ) → a ≤ n → bit_or a b ≡ 0 → (a ≡ 0) × (b ≡ 0)
or_zero_both n zero b h e = omega (arith, bit_or_zero b)
or_zero_both zero (suc a) b h e = absurd (omega arith)
or_zero_both (suc n) (suc a) b h e =
    let last = or_last_digit (suc a) b in
    let ih = or_zero_both n (suc a / 2) (b / 2) (omega arith) (omega (arith, last)) in
    omega (arith, last, ih)

-- `|` gives 0 only for two zeros.
pub bit_or-eq-zero : (a b : ℕ) → bit_or a b ≡ 0 → (a ≡ 0) × (b ≡ 0)
bit_or-eq-zero a b e = or_zero_both a a b (omega arith) e

differ-eq-zero : (x y : ℕ) → differ x y ≡ 0 → x ≡ y
differ-eq-zero zero y e = omega arith
differ-eq-zero (suc x) zero e = omega arith
differ-eq-zero (suc x) (suc y) e = omega (arith, differ-eq-zero x y e)

differ_self : (x : ℕ) → differ x x ≡ 0
differ_self zero = refl
differ_self (suc x) = differ_self x

xor_zero_equal : (n a b : ℕ) → a ≤ n → bit_xor a b ≡ 0 → a ≡ b
xor_zero_equal n zero b h e = omega (arith, bit_xor-bitwise 0 b)
xor_zero_equal zero (suc a) b h e = absurd (omega arith)
xor_zero_equal (suc n) (suc a) b h e =
    let last = xor_last_digit (suc a) b in
    let ih = xor_zero_equal n (suc a / 2) (b / 2) (omega arith) (omega (arith, last)) in
    let low = differ-eq-zero (suc a % 2) (b % 2) (omega (arith, last)) in omega (arith, ih, low)

xor_self_within : (n a : ℕ) → a ≤ n → bit_xor a a ≡ 0
xor_self_within n zero h = bit_xor-bitwise 0 0
xor_self_within zero (suc a) h = absurd (omega arith)
xor_self_within (suc n) (suc a) h = omega (
  arith,
  xor_last_digit (suc a) (suc a),
  xor_self_within n (suc a / 2) (omega arith),
  differ_self (suc a % 2),
)

-- `^` gives 0 exactly for equal numbers.
pub bit_xor-eq-zero_iff : (a b : ℕ) → (bit_xor a b ≡ 0) ↔ (a ≡ b)
bit_xor-eq-zero_iff a b =
    (xor_zero_equal a a b (omega arith), λ e. rw e (xor_self_within b b (omega arith)))
