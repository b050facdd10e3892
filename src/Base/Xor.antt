-- ===== src/Base/Xor.antt =====
-- Exclusive or at variables: what is mixed in twice is gone, and the order does not matter.
use Prim.Native.Nat.{ℕ, zero, suc, ◌+◌, ◌*◌, ◌/◌, ◌%◌, ◌≤◌, ◌<◌}
use Prim.Native.Nat.{bit_xor, differ, bit_xor-bitwise}
use mathlib.Core.Path.{◌≡◌, refl, sym, ap, ◌∙◌}
use native.Mathlib.Omega.{arith}
use kaplarc.Base.Bits.{bitwise_digit}

xor_digit : (a b : ℕ) → bit_xor a b ≡ bit_xor (a / 2) (b / 2) * 2 + differ (a % 2) (b % 2)
xor_digit zero b = simp bit_xor-bitwise (omega arith)
xor_digit (suc a) b = simp bit_xor-bitwise (bitwise_digit (λ y. y) differ a b)

differ-mod : (x y : ℕ) → x < 2 → y < 2 → differ x y ≡ (x + y) % 2
differ-mod zero y h g = omega arith
differ-mod (suc zero) zero h g = omega arith
differ-mod (suc zero) (suc zero) h g = omega arith
differ-mod (suc zero) (suc (suc y)) h g = absurd (omega arith)
differ-mod (suc (suc x)) y h g = absurd (omega arith)

-- The last digit of an exclusive or, and the digits above it.
xor-div : (a b : ℕ) → bit_xor a b / 2 ≡ bit_xor (a / 2) (b / 2)
xor-div a b = omega (arith, xor_digit a b, differ-mod (a % 2) (b % 2) (omega arith) (omega arith))

xor-mod : (a b : ℕ) → bit_xor a b % 2 ≡ (a % 2 + b % 2) % 2
xor-mod a b = omega (arith, xor_digit a b, differ-mod (a % 2) (b % 2) (omega arith) (omega arith))

eq_of_digits : (x y : ℕ) → x / 2 ≡ y / 2 → x % 2 ≡ y % 2 → x ≡ y
eq_of_digits x y h g = omega arith

xor-xor_below : (n a b : ℕ) → a ≤ n → b ≤ n → bit_xor (bit_xor a b) b ≡ a
xor-xor_below zero zero zero p q = refl
xor-xor_below zero zero (suc b) p q = absurd (omega arith)
xor-xor_below zero (suc a) b p q = absurd (omega arith)
xor-xor_below (suc n) a b p q =
    eq_of_digits _ _
      (xor-div (bit_xor a b) b
        ∙ ap (λ t. bit_xor t (b / 2)) (xor-div a b)
        ∙ xor-xor_below n (a / 2) (b / 2) (omega arith) (omega arith))
      (omega (arith, xor-mod (bit_xor a b) b, xor-mod a b))

-- Mixing the same word in again takes it out.
pub xor-xor : (a b : ℕ) → bit_xor (bit_xor a b) b ≡ a
xor-xor a b = xor-xor_below (a + b) a b (omega arith) (omega arith)

xor_swap_below :
    (n a b c : ℕ) → a ≤ n → b ≤ n → c ≤ n → bit_xor (bit_xor a b) c ≡ bit_xor (bit_xor a c) b
xor_swap_below zero zero zero zero p q r = refl
xor_swap_below zero zero zero (suc c) p q r = absurd (omega arith)
xor_swap_below zero zero (suc b) c p q r = absurd (omega arith)
xor_swap_below zero (suc a) b c p q r = absurd (omega arith)
xor_swap_below (suc n) a b c p q r =
    eq_of_digits _ _
      (xor-div (bit_xor a b) c
        ∙ ap (λ t. bit_xor t (c / 2)) (xor-div a b)
        ∙ xor_swap_below n (a / 2) (b / 2) (c / 2) (omega arith) (omega arith) (omega arith)
        ∙ sym (ap (λ t. bit_xor t (b / 2)) (xor-div a c))
        ∙ sym (xor-div (bit_xor a c) b))
      (omega (arith, xor-mod (bit_xor a b) c, xor-mod a b, xor-mod (bit_xor a c) b, xor-mod a c))

-- Two words may be mixed in in either order.
pub xor_swap : (a b c : ℕ) → bit_xor (bit_xor a b) c ≡ bit_xor (bit_xor a c) b
xor_swap a b c = xor_swap_below (a + b + c) a b c (omega arith) (omega arith) (omega arith)

-- A word between two mixings of another one.
pub xor_around : (a b c : ℕ) → bit_xor (bit_xor (bit_xor a b) c) b ≡ bit_xor a c
xor_around a b c = xor_swap (bit_xor a b) c b ∙ ap (λ t. bit_xor t c) (xor-xor a b)

pub zero-xor : (b : ℕ) → bit_xor 0 b ≡ b
zero-xor b = simp bit_xor-bitwise (omega arith)

pub xor_self : (a : ℕ) → bit_xor a a ≡ 0
xor_self a = ap (λ t. bit_xor t a) (sym (zero-xor a)) ∙ xor-xor 0 a
