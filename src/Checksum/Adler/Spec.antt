-- ===== src/Checksum/Adler/Spec.antt =====
-- The checksum is that of the definition: sums reduced after every byte.
use kaplarc.Base.{
  ℕ, zero, suc, ◌+◌, ◌-◌, ◌*◌, ◌^◌, ◌≤◌, ◌<◌, ◌≡◌, refl, sym, ap, ◌∙◌, arith, some, List, [], ◌∷◌,
  length, take, drop, All, ltb, if◌then◌else◌, ne→==_false, length-drop, take-nil, All-drop,
  ℕ_discrete, subst,
}
use kaplarc.Base.Bits.{or_disjoint_low}
use kaplarc.Checksum.Adler.{Sums, base, nmax, adler32, chunks}
use kaplarc.Checksum.Adler.Chunk.{step, steps, reduce-sum_chunk}

-- Stepping through a list is stepping through its first `k` elements and then the rest.
steps-take-drop :
    (s : Sums) (k m n : ℕ) (xs : List ℕ)
    → k + m ≡ n
    → steps (steps s (take k xs)) (take m (drop k xs)) ≡ steps s (take n xs)
unfolding steps
steps-take-drop s zero m n xs e = ap (λ t. steps s (take t xs)) (omega arith)
steps-take-drop s (suc k) m n [] e = rw (take-nil m, take-nil n)
steps-take-drop s (suc k) m zero (x ∷ xs) e = absurd (omega arith)
steps-take-drop s (suc k) m (suc n) (x ∷ xs) e = steps-take-drop (step s x) k m n xs (omega arith)

step-lt : (s : Sums) (x : ℕ) → ((step s x).a < base) × ((step s x).b < base)
unfolding step
step-lt s x = omega arith

steps-lt :
    (s : Sums) (xs : List ℕ)
    → s.a < base
    → s.b < base
    → ((steps s xs).a < base) × ((steps s xs).b < base)
unfolding steps
steps-lt s [] ha hb = (ha, hb)
steps-lt s (x ∷ xs) ha hb = steps-lt (step s x) xs (step-lt s x).0 (step-lt s x).1

chunks_lem :
    (fuel : ℕ) (s : Sums) (buf : List ℕ) (len : ℕ)
    → len ≤ fuel
    → len ≤ length buf
    → All (λ x. x < 256) buf
    → s.a < base
    → s.b < base
    → chunks fuel s buf len ≡ some (steps s (take len buf))
unfolding chunks steps
chunks_lem zero s buf zero hf h bytes ha hb = refl
chunks_lem zero s buf (suc len) hf h bytes ha hb = absurd (omega arith)
chunks_lem (suc fuel) s buf len hf h bytes ha hb =
    let k = if ltb nmax len then nmax else len in
    let k_le : k ≤ len = ground arith in
    let k_fits : k ≤ nmax = ground arith in
    let (s', run, reduced) = reduce-sum_chunk s buf k k_fits (omega arith) bytes ha hb in
    let small = steps-lt s (take k buf) ha hb in
    let rest = chunks_lem fuel (steps s (take k buf)) (drop k buf) (len - k) in
    elim (ℕ_discrete len 0) [
      | yes e ↦ subst (λ n. chunks (suc fuel) s buf n ≡ some (steps s (take n buf))) (sym e) refl
      | no nz ↦
          rw (ne→==_false len 0 nz, run, reduced)
            (rest (ground arith) (omega (arith, length-drop k buf)) (All-drop _ k buf bytes) small.0
                small.1
              ∙ ap some (steps-take-drop s k (len - k) len buf (omega arith)))
    ]

-- For a buffer of bytes that holds `len` of them, the checksum is defined, and is the pair of sums
-- that are reduced modulo 65521 after every byte, starting from 1 and 0.
pub adler32_lem :
    (buf : List ℕ) (len : ℕ)
    → len ≤ length buf
    → All (λ x. x < 256) buf
    → let s = steps (record { a = 1; b = 0 }) (take len buf) in
      adler32 buf len ≡ some (s.b * 65536 + s.a)
unfolding adler32
adler32_lem buf len h bytes =
    let s = steps (record { a = 1; b = 0 }) (take len buf) in
    let small = steps-lt (record { a = 1; b = 0 }) (take len buf) (omega arith) (omega arith) in
    rw
      (chunks_lem len (record { a = 1; b = 0 }) buf len (omega arith) h bytes (omega arith)
        (omega arith))
      (ground (arith, small, or_disjoint_low 16 s.b s.a (omega arith)))

-- The checksum is a uint32.
pub adler32-lt :
    (c : List ℕ) (len : ℕ)
    → len ≤ length c
    → All (λ b. b < 256) c
    → (sum : ℕ) × (adler32 c len ≡ some sum) × (sum < 2 ^ 32)
adler32-lt c len h bytes =
    let s = steps (record { a = 1; b = 0 }) (take len c) in
    let small = steps-lt (record { a = 1; b = 0 }) (take len c) (omega arith) (omega arith) in
    (s.b * 65536 + s.a, adler32_lem c len h bytes, omega (arith, small))
