-- ===== src/Tasks/Ring/Index.antt =====
-- The indices of src/task_rbuffer.c: positions that wrap at 2 ^ 32, masked to a power of two.
use kaplarc.Base.{
  ℕ, zero, suc, ◌+◌, ◌-◌, ◌*◌, ◌/◌, ◌%◌, ◌^◌, ◌≤◌, ◌<◌, ◌≡◌, ◌≢◌, ◌⊎◌, inl, inr, arith, ◌∙◌, sym,
  ap, subst, u32, bit_and,
}
use Prim.Native.Nat.{◌∣◌}
use native.Mathlib.Nat.{
  pow-suc, dvd_refl, dvd-mul_right_of_dvd, mod-mod_of_dvd, div-add-mod', mul-le-mul_right,
}
use kaplarc.Base.Bits.{and_ones_mod}

pow_dvd : (d k : ℕ) → 2 ^ k ∣ 2 ^ (d + k)
pow_dvd zero k = subst (λ n. 2 ^ k ∣ 2 ^ n) {x = k} {y = 0 + k} (omega arith) (dvd_refl (2 ^ k))
pow_dvd (suc d) k =
    subst (λ n. 2 ^ k ∣ n) {x = 2 ^ (d + k) * 2} {y = 2 ^ (suc d + k)}
      (omega (
        arith,
        pow-suc 2 (d + k),
        ap (λ (n : ℕ). 2 ^ n) {x = suc d + k} {y = suc (d + k)} (omega arith),
      ))
      (dvd-mul_right_of_dvd (2 ^ k) (pow_dvd d k) 2)

-- The wrap at 2 ^ 32 is not seen below the mask.
pub wrap_mod : (k x : ℕ) → k ≤ 32 → u32 x % 2 ^ k ≡ x % 2 ^ k
wrap_mod k x h =
    mod-mod_of_dvd (2 ^ k) x (
      subst (λ (n : ℕ). 2 ^ k ∣ 2 ^ n) {x = 32 - k + k} {y = 32} (omega arith) (pow_dvd (32 - k) k))

order : (q q' : ℕ) → (q' ≤ q) ⊎ (suc q ≤ q')
order q q' = ground arith

no_multiple : (q q' m n : ℕ) → q' * m ≡ q * m + n → 0 < n → m ≤ n ⊎ (n ≡ 0)
no_multiple q q' m n e pos = elim (order q q') [
  | inl le ↦ absurd (omega (arith, mul-le-mul_right m le))
  | inr lt ↦ inl (omega (arith, mul-le-mul_right m lt))
]

-- Two numbers less than `m` apart have different remainders.
gap : (m a n : ℕ) → 0 < n → n < m → a % m ≢ (a + n) % m
gap m a n pos h e = ground (
  arith,
  no_multiple (a / m) ((a + n) / m) m n (omega (arith, div-add-mod' a m, div-add-mod' (a + n) m))
      pos,
)

-- Positions less than the capacity apart have different slots.
pub index_ne :
    (k mask p n : ℕ)
    → k ≤ 32
    → mask ≡ 2 ^ k - 1
    → 0 < n
    → n < 2 ^ k
    → bit_and p mask ≢ bit_and (u32 (p + n)) mask
index_ne k mask p n h m pos l e = gap (2 ^ k) p n pos l (
    sym (and_ones_mod k p)
    ∙ ap (bit_and p) (sym m)
    ∙ e
    ∙ ap (bit_and (u32 (p + n))) m
    ∙ and_ones_mod k (u32 (p + n))
    ∙ wrap_mod k (p + n) h)
