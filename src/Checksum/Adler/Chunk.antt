-- ===== src/Checksum/Adler/Chunk.antt =====
-- A chunk of at most 5552 bytes: the unrolled loops are one loop, and no sum wraps.
use kaplarc.Base.{
  ℕ, zero, suc, ◌+◌, ◌-◌, ◌*◌, ◌%◌, ◌^◌, ◌≤◌, ◌<◌, ◌≡◌, refl, sym, ap, ◌∙◌, arith, some, List, [],
  ◌∷◌, length, take, drop, All, ◌>>=◌, le→leb, lt→leb_false, dec_le, length-take, All-take,
}
use kaplarc.Checksum.Adler.{Sums, base, nmax, do1, do4, sum16, sum1, sum_chunk, reduce}

-- The bytes are taken one by one.
pub sum_all : Sums → List ℕ → Sums
sum_all s [] = s
sum_all s (x ∷ xs) = sum_all (do1 s x) xs

sum1_lem :
    (s : Sums) (buf : List ℕ) (k : ℕ)
    → k ≤ length buf
    → sum1 s buf k ≡ some (sum_all s (take k buf), drop k buf)
unfolding sum1 sum_all
sum1_lem s buf zero h = refl
sum1_lem s [] (suc k) h = absurd (omega arith)
sum1_lem s (x ∷ buf) (suc k) h = sum1_lem (do1 s x) buf k (omega arith)

-- Sixteen rounds of the byte loop are one of the unrolled loop.
sum1_unrolled :
    (s : Sums) (x0 x1 x2 x3 x4 x5 x6 x7 x8 x9 xa xb xc xd xe xf : ℕ) (buf : List ℕ) (j : ℕ)
    → sum1 s (x0 ∷ x1 ∷ x2 ∷ x3 ∷ x4 ∷ x5 ∷ x6 ∷ x7 ∷ x8 ∷ x9 ∷ xa ∷ xb ∷ xc ∷ xd ∷ xe ∷ xf ∷ buf) (
        suc (
          suc
            (suc (suc (suc (suc (suc (suc (suc (suc (suc (suc (suc (suc (suc (suc j))))))))))))))))
      ≡ sum1 (do4 (do4 (do4 (do4 s x0 x1 x2 x3) x4 x5 x6 x7) x8 x9 xa xb) xc xd xe xf) buf j
unfolding sum1 do4
sum1_unrolled s x0 x1 x2 x3 x4 x5 x6 x7 x8 x9 xa xb xc xd xe xf buf j = refl

-- What the unrolled loop leaves to the byte loop.
sum16_lem :
    (s : Sums) (buf : List ℕ) (k : ℕ)
    → k ≤ length buf
    → (sum16 s buf k >>= λ r. sum1 r.0 r.1 r.2) ≡ sum1 s buf k
unfolding sum16
sum16_lem s (x0 ∷ x1 ∷ x2 ∷ x3 ∷ x4 ∷ x5 ∷ x6 ∷ x7 ∷ x8 ∷ x9 ∷ xa ∷ xb ∷ xc ∷ xd ∷ xe ∷ xf ∷ buf) k
      h =
    let s' = do4 (do4 (do4 (do4 s x0 x1 x2 x3) x4 x5 x6 x7) x8 x9 xa xb) xc xd xe xf in
    let ih = sum16_lem s' buf (k - 16) in
    elim (dec_le 16 k) [
      | yes e ↦ rw (le→leb 16 k e) (
          ih (omega arith)
          ∙ sym (sum1_unrolled s x0 x1 x2 x3 x4 x5 x6 x7 x8 x9 xa xb xc xd xe xf buf (k - 16))
          ∙ ap
              (sum1 s (
                x0 ∷ x1 ∷ x2 ∷ x3 ∷ x4 ∷ x5 ∷ x6 ∷ x7 ∷ x8 ∷ x9 ∷ xa ∷ xb ∷ xc ∷ xd ∷ xe ∷ xf
                ∷ buf))
              (omega arith))
      | no e ↦ rw (lt→leb_false 16 k (omega arith)) refl
    ]
sum16_lem s buf k h = rw (lt→leb_false 16 k (omega arith)) refl

sum_chunk_lem :
    (s : Sums) (buf : List ℕ) (k : ℕ)
    → k ≤ length buf
    → sum_chunk s buf k ≡ some (sum_all s (take k buf), drop k buf)
unfolding sum_chunk
sum_chunk_lem s buf k h = sum16_lem s buf k h ∙ sum1_lem s buf k h

-- The reduced sums of the definition of Adler-32.
unfoldable pub step : Sums → ℕ → Sums
step s x = let a = (s.a + x) % base in record { a = a; b = (s.b + a) % base }

unfoldable pub steps : Sums → List ℕ → Sums
steps s [] = s
steps s (x ∷ xs) = steps (step s x) xs

-- After `i` bytes of a chunk the sums are at most as large as the greatest bytes make them.
pub record IsBounded (i : ℕ) (s : Sums) : Type 0 where
  pub a_le : s.a ≤ 65520 + 255 * i
  pub b_le : 2 * s.b ≤ 131040 + 131040 * i + 255 * (i * i + i)

square_le : (i : ℕ) → i ≤ 5552 → i * i ≤ 5552 * 5552
square_le i h = grind arith

-- Under the bound neither sum wraps.
do1_plain :
    (i : ℕ) (s : Sums) (x : ℕ)
    → i < nmax
    → x < 256
    → IsBounded i s
    → do1 s x ≡ record { a = s.a + x; b = s.b + (s.a + x) }
unfolding do1
do1_plain i s x h hx v =
    let a_lt : s.a + x < 2 ^ 32 = omega arith in
    let b_lt : s.b + (s.a + x) < 2 ^ 32 = omega (arith, square_le (suc i) (omega arith)) in
    ground (arith, a_lt, b_lt)

do1-IsBounded :
    (i : ℕ) (s : Sums) (x : ℕ) → i < nmax → x < 256 → IsBounded i s → IsBounded (suc i) (do1 s x)
do1-IsBounded i s x h hx v = rw (do1_plain i s x h hx v) (omega arith)

reduce-do1 :
    (i : ℕ) (s : Sums) (x : ℕ)
    → i < nmax
    → x < 256
    → IsBounded i s
    → reduce (do1 s x) ≡ step (reduce s) x
unfolding reduce step
reduce-do1 i s x h hx v = rw (do1_plain i s x h hx v) (ground arith)

pub reduce-sum_all :
    (i : ℕ) (s : Sums) (xs : List ℕ)
    → i + length xs ≤ nmax
    → All (λ x. x < 256) xs
    → IsBounded i s
    → reduce (sum_all s xs) ≡ steps (reduce s) xs
unfolding sum_all steps
reduce-sum_all i s [] h bytes v = refl
reduce-sum_all i s (x ∷ xs) h bytes v = rw (← reduce-do1 i s x (omega arith) bytes.0 v) (
    reduce-sum_all (suc i) (do1 s x) xs (omega arith) bytes.1
      (do1-IsBounded i s x (omega arith) bytes.0 v))

reduce_of_lt : (s : Sums) → s.a < base → s.b < base → reduce s ≡ s
unfolding reduce
reduce_of_lt s ha hb = ground arith

-- A chunk of at most 5552 bytes, from reduced sums, steps through its bytes.
pub reduce-sum_chunk :
    (s : Sums) (buf : List ℕ) (k : ℕ)
    → k ≤ nmax
    → k ≤ length buf
    → All (λ x. x < 256) buf
    → s.a < base
    → s.b < base
    → (s' : Sums) × (sum_chunk s buf k ≡ some (s', drop k buf)) × (reduce s' ≡ steps s (take k buf))
reduce-sum_chunk s buf k hk fits bytes ha hb = (
  sum_all s (take k buf),
  sum_chunk_lem s buf k fits,
  reduce-sum_all 0 s (take k buf) (omega (arith, length-take k buf)) (All-take _ k buf bytes)
        (omega arith)
      ∙ ap (λ t. steps t (take k buf)) (reduce_of_lt s ha hb),
)
