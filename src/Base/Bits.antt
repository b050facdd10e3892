-- ===== src/Base/Bits.antt =====
-- The bit operators at variables: a field above a shift, a mask, and disjoint fields.
use Prim.Native.Nat.{ℕ, zero, suc, ◌+◌, ◌-◌, ◌*◌, ◌/◌, ◌%◌, ◌^◌, ◌≤◌, ◌<◌, min, max}
use Prim.Native.Nat.{bit_and, bit_or, digits, bitwise, bit_and-bitwise, bit_or-bitwise}
use mathlib.Core.Path.{◌≡◌, refl, ap}
use native.Mathlib.Nat.{pow-suc, one-le-pow}
use native.Mathlib.Omega.{arith}

-- The digit recursion that the native operators stand for does not depend on spare fuel.
module _ (z : ℕ → ℕ) (f : ℕ → ℕ → ℕ) where
  digits_spare : (n m a b : ℕ) → a ≤ n → a ≤ m → digits z f n a b ≡ digits z f m a b
  digits_spare zero zero a b p q = refl
  digits_spare zero (suc m) zero b p q = refl
  digits_spare zero (suc m) (suc a) b p q = absurd (omega arith)
  digits_spare (suc n) zero zero b p q = refl
  digits_spare (suc n) zero (suc a) b p q = absurd (omega arith)
  digits_spare (suc n) (suc m) zero b p q = refl
  digits_spare (suc n) (suc m) (suc a) b p q =
      omega (arith, digits_spare n m (suc a / 2) (b / 2) (omega arith) (omega arith))

  pub bitwise_digit :
      (a b : ℕ)
      → bitwise z f (suc a) b ≡ bitwise z f (suc a / 2) (b / 2) * 2 + f (suc a % 2) (b % 2)
  bitwise_digit a b =
      omega (arith, digits_spare a (suc a / 2) (suc a / 2) (b / 2) (omega arith) (omega arith))

or_digit : (a b : ℕ) → bit_or a b ≡ bit_or (a / 2) (b / 2) * 2 + max (a % 2) (b % 2)
or_digit zero b = simp bit_or-bitwise (omega arith)
or_digit (suc a) b = simp bit_or-bitwise (bitwise_digit (λ y. y) max a b)

pub and_digit : (a b : ℕ) → bit_and a b ≡ bit_and (a / 2) (b / 2) * 2 + min (a % 2) (b % 2)
and_digit zero b = simp bit_and-bitwise (omega arith)
and_digit (suc a) b = simp bit_and-bitwise (bitwise_digit (λ y. 0) min a b)

or-zero_below : (n a : ℕ) → a ≤ n → bit_or a 0 ≡ a
or-zero_below n zero h = refl
or-zero_below zero (suc a) h = absurd (omega arith)
or-zero_below (suc n) (suc a) h =
    omega (arith, or_digit (suc a) 0, or-zero_below n (suc a / 2) (omega arith))

pub or-zero : (a : ℕ) → bit_or a 0 ≡ a
or-zero a = or-zero_below a a (omega arith)

and-zero_below : (n a : ℕ) → a ≤ n → bit_and a 0 ≡ 0
and-zero_below n zero h = refl
and-zero_below zero (suc a) h = absurd (omega arith)
and-zero_below (suc n) (suc a) h =
    omega (arith, and_digit (suc a) 0, and-zero_below n (suc a / 2) (omega arith))

pub and-zero : (a : ℕ) → bit_and a 0 ≡ 0
and-zero a = and-zero_below a a (omega arith)

double_shift : (q k : ℕ) → q * 2 ^ suc k ≡ 2 * (q * 2 ^ k)
double_shift q k = omega (arith, ap (λ (t : ℕ). q * t) (pow-suc 2 k))

-- A value above bit `k`, joined with one below it, is their sum.
pub or_disjoint : (k q r : ℕ) → r < 2 ^ k → bit_or (q * 2 ^ k) r ≡ q * 2 ^ k + r
or_disjoint zero q r fits = ground (arith, or-zero q)
or_disjoint (suc k) q r fits =
    ground
      (arith, or_digit (q * 2 ^ suc k) r, double_shift q k, or_disjoint k q (r / 2) (omega arith))

-- A mask moved up by `k` bits reads the bits from `k` on.
pub and_shifted :
    (k q r m : ℕ) → r < 2 ^ k → bit_and (q * 2 ^ k + r) (m * 2 ^ k) ≡ bit_and q m * 2 ^ k
and_shifted zero q r m fits = ground arith
and_shifted (suc k) q r m fits = ground (
  arith,
  and_digit (q * 2 ^ suc k + r) (m * 2 ^ suc k),
  double_shift q k,
  double_shift m k,
  double_shift (bit_and q m) k,
  pow-suc 2 k,
  and_shifted k q (r / 2) m (omega arith),
)

-- A mask of `k` ones is the remainder by `2 ^ k`.
pub and_ones : (k q r : ℕ) → r < 2 ^ k → bit_and (q * 2 ^ k + r) (2 ^ k - 1) ≡ r
and_ones zero q r fits = ground (arith, and-zero (q * 1 + r))
and_ones (suc k) q r fits = ground (
  arith,
  and_digit (q * 2 ^ suc k + r) (2 ^ suc k - 1),
  double_shift q k,
  pow-suc 2 k,
  one-le-pow k 2,
  and_ones k q (r / 2) (omega arith),
)

pub and_ones_mod : (k x : ℕ) → bit_and x (2 ^ k - 1) ≡ x % 2 ^ k
and_ones_mod k x = ground (arith, one-le-pow k 2, and_ones k (x / 2 ^ k) (x % 2 ^ k))

pub and_ones_shifted : (k n x : ℕ) → bit_and x ((2 ^ n - 1) * 2 ^ k) ≡ x / 2 ^ k % 2 ^ n * 2 ^ k
and_ones_shifted k n x = ground (
  arith,
  one-le-pow k 2,
  and_shifted k (x / 2 ^ k) (x % 2 ^ k) (2 ^ n - 1),
  and_ones_mod n (x / 2 ^ k),
)

zero-or : (b : ℕ) → bit_or 0 b ≡ b
zero-or b = simp bit_or-bitwise (omega arith)

-- A value below bit `k`, joined with one above it, is their sum.
pub or_disjoint_low : (k q r : ℕ) → r < 2 ^ k → bit_or r (q * 2 ^ k) ≡ r + q * 2 ^ k
or_disjoint_low zero q zero fits = ground (arith, zero-or (q * 1))
or_disjoint_low zero q (suc r) fits = absurd (omega arith)
or_disjoint_low (suc k) q r fits =
    ground (
      arith,
      or_digit r (q * 2 ^ suc k),
      double_shift q k,
      or_disjoint_low k q (r / 2) (omega arith),
    )
