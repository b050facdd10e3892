-- ===== src/Tasks/Ring/Power.antt =====
-- The test IS_POWER_OF_TWO of src/common.h.
use kaplarc.Base.{
  ℕ, zero, suc, ◌-◌, ◌/◌, ◌%◌, ◌^◌, ◌≤◌, ◌<◌, ◌≡◌, ◌⊎◌, inl, inr, true, arith, refl, ap, bit_and,
}
use native.Mathlib.Nat.{pow-suc}
use kaplarc.Base.Bits.{and_digit}
use kaplarc.Tasks.Ring.{is_power_of_two}

abbrev pub IsPower : ℕ → Type 0
IsPower x = (k : ℕ) × (x ≡ 2 ^ k)

and_self_below : (n a : ℕ) → a ≤ n → bit_and a a ≡ a
and_self_below n zero h = refl
and_self_below zero (suc a) h = absurd (omega arith)
and_self_below (suc n) (suc a) h =
    omega (arith, and_digit (suc a) (suc a), and_self_below n (suc a / 2) (omega arith))

halved : (n x : ℕ) → x ≤ n → 0 < x → bit_and x (x - 1) ≡ 0 → IsPower x
halved zero x h pos e = absurd (omega arith)
halved (suc n) x h pos e = elim (halves x) [
  | inl odd ↦
      (0, omega (arith, and_digit x (x - 1), half_odd odd, and_self_below n (x / 2) (omega arith)))
  | inr even ↦
      let (k, p) =
        halved n (x / 2) (omega arith) (omega arith)
          (omega (arith, and_digit x (x - 1), half even)) in
      (suc k, omega (arith, p, pow-suc 2 k))
]
  where
    halves : (x : ℕ) → (x % 2 ≡ 1) ⊎ (x % 2 ≡ 0)
    halves x = ground arith

    half_odd : x % 2 ≡ 1 → bit_and (x / 2) ((x - 1) / 2) ≡ bit_and (x / 2) (x / 2)
    half_odd odd = ap (bit_and (x / 2)) (omega arith)

    half : x % 2 ≡ 0 → bit_and (x / 2) ((x - 1) / 2) ≡ bit_and (x / 2) (x / 2 - 1)
    half even = ap (bit_and (x / 2)) (omega arith)

-- The test finds powers of two alone.
pub is_power_of_two-IsPower : (x : ℕ) → is_power_of_two x ≡ true → (k : ℕ) × (x ≡ 2 ^ k)
unfolding is_power_of_two
is_power_of_two-IsPower x h = halved x x (omega arith) (ground arith) (ground arith)
