-- ===== src/Base/Bits.antt =====
-- Facts about `bit_or` at variables, from the digit recursion that it stands for.
use Prim.Native.Nat.{
  ℕ, zero, suc, ◌+◌, ◌*◌, ◌/◌, ◌%◌, ◌^◌, ◌≤◌, ◌<◌, max, bit_or, digits, bit_or-bitwise,
}
use mathlib.Core.Path.{◌≡◌, refl, ap, ap₂, ◌∙◌}
use native.Mathlib.Omega.{arith}
use native.Mathlib.Nat.{pow-suc}

abbrev or_digits : ℕ → ℕ → ℕ → ℕ
or_digits n a b = digits (λ c. c) max n a b

-- The count of digits does not matter once it covers the first number.
or_digits_enough : (n m a b : ℕ) → a ≤ n → a ≤ m → or_digits n a b ≡ or_digits m a b
or_digits_enough zero zero a b p q = refl
or_digits_enough zero (suc m) zero b p q = refl
or_digits_enough zero (suc m) (suc a) b p q = absurd (omega arith)
or_digits_enough (suc n) zero zero b p q = refl
or_digits_enough (suc n) zero (suc a) b p q = absurd (omega arith)
or_digits_enough (suc n) (suc m) zero b p q = refl
or_digits_enough (suc n) (suc m) (suc a) b p q =
    omega (arith, or_digits_enough n m (suc a / 2) (b / 2) (omega arith) (omega arith))

pub zero-bit_or : (b : ℕ) → bit_or 0 b ≡ b
zero-bit_or b = bit_or-bitwise 0 b

pub bit_or_step : (a b : ℕ) → bit_or a b ≡ bit_or (a / 2) (b / 2) * 2 + max (a % 2) (b % 2)
bit_or_step zero b = omega (arith, zero-bit_or b, zero-bit_or (b / 2))
bit_or_step (suc a) b = omega (
  arith,
  bit_or-bitwise (suc a) b,
  bit_or-bitwise (suc a / 2) (b / 2),
  or_digits_enough a (suc a / 2) (suc a / 2) (b / 2) (omega arith) (omega arith),
)

bit_or-zero_below : (n a : ℕ) → a ≤ n → bit_or a 0 ≡ a
bit_or-zero_below n zero h = refl
bit_or-zero_below zero (suc a) h = absurd (omega arith)
bit_or-zero_below (suc n) (suc a) h =
    omega (arith, bit_or_step (suc a) 0, bit_or-zero_below n (suc a / 2) (omega arith))

pub bit_or-zero : (a : ℕ) → bit_or a 0 ≡ a
bit_or-zero a = bit_or-zero_below a a (omega arith)

-- `x << k | y` joins two bit fields when `y` has at most `k` bits.
pub bit_or-shift : (k a b : ℕ) → b < 2 ^ k → bit_or (a * 2 ^ k) b ≡ a * 2 ^ k + b
bit_or-shift zero a b h =
    let e : b ≡ 0 = omega arith in rw e (omega (arith, bit_or-zero a, bit_or-zero (a * 1)))
bit_or-shift (suc k) a b h = omega (
  arith,
  bit_or_step (a * 2 ^ suc k) b,
  halves,
  bit_or-shift k a (b / 2) (omega (arith, pow-suc 2 k)),
  double,
)
  where
    double : a * 2 ^ suc k ≡ 2 * (a * 2 ^ k)
    double = rw (pow-suc 2 k) (omega arith)

    halves : bit_or (a * 2 ^ suc k / 2) (b / 2) ≡ bit_or (a * 2 ^ k) (b / 2)
    halves = ap (λ t. bit_or t (b / 2)) (omega (arith, double))

-- Two numbers without their `k` low bits, which are zero.
pub bit_or-shift_both : (k a b : ℕ) → bit_or (a * 2 ^ k) (b * 2 ^ k) ≡ bit_or a b * 2 ^ k
bit_or-shift_both zero a b =
    let one_a : a * 1 ≡ a = omega arith in
    let one_b : b * 1 ≡ b = omega arith in
    let one : bit_or a b ≡ bit_or a b * 1 = omega arith in ap₂ bit_or one_a one_b ∙ one
bit_or-shift_both (suc k) a b = omega (
  arith,
  bit_or_step (a * 2 ^ suc k) (b * 2 ^ suc k),
  halves,
  bit_or-shift_both k a b,
  double a,
  double b,
  double (bit_or a b),
)
  where
    double : (n : ℕ) → n * 2 ^ suc k ≡ 2 * (n * 2 ^ k)
    double n = rw (pow-suc 2 k) (omega arith)

    halves : bit_or (a * 2 ^ suc k / 2) (b * 2 ^ suc k / 2) ≡ bit_or (a * 2 ^ k) (b * 2 ^ k)
    halves = ap₂ bit_or (omega (arith, double a)) (omega (arith, double b))
