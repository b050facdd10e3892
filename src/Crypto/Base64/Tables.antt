-- ===== src/Crypto/Base64/Tables.antt =====
-- The two tables of src/crypto/base64.c are inverse to each other.
use kaplarc.Base.{
  ℕ, zero, suc, ◌<◌, ◌≡◌, arith, refl, Bool, true, false, ◌&&◌, ◌==◌, ==→eq, ltb, ltb→lt,
  ℕ_discrete, subst,
}
use kaplarc.Crypto.Base64.{base64, decode64}

-- The entries below `n` are read back, and none of them is NUL.
inverse_below : ℕ → Bool
unfolding base64 decode64
inverse_below zero = true
inverse_below (suc n) = (decode64 (base64 n) == n) && (ltb 0 (base64 n) && inverse_below n)

inverse : inverse_below 64 ≡ true
unfolding inverse_below base64 decode64
inverse = refl

and_true : (a b : Bool) → (a && b) ≡ true → (a ≡ true) × (b ≡ true)
and_true true b h = (refl, h)
and_true false b h = absurd (cc)

inverse_at : (n i : ℕ) → inverse_below n ≡ true → i < n → (decode64 (base64 i) ≡ i) × (0 < base64 i)
unfolding inverse_below
inverse_at zero i h l = absurd (omega arith)
inverse_at (suc n) i h l =
    let (a, b) = and_true (decode64 (base64 n) == n) (ltb 0 (base64 n) && inverse_below n) h in
    let (c, d) = and_true (ltb 0 (base64 n)) (inverse_below n) b in
    elim (ℕ_discrete n i) [
      | yes e ↦
          subst (λ k. (decode64 (base64 k) ≡ k) × (0 < base64 k)) e
            (==→eq (decode64 (base64 n)) n a, ltb→lt 0 (base64 n) c)
      | no ne ↦ inverse_at n i d (omega arith)
    ]

pub decode64-base64 : (i : ℕ) → i < 64 → decode64 (base64 i) ≡ i
decode64-base64 i l = (inverse_at 64 i inverse l).0

pub base64_positive : (i : ℕ) → i < 64 → 0 < base64 i
base64_positive i l = (inverse_at 64 i inverse l).1
