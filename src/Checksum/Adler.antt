-- ===== src/Checksum/Adler.antt =====
-- src/adler32.c: the checksum of a message, with its sums reduced once for each 5552 bytes.
pub mod Chunk
pub mod Spec
mod Tests
use kaplarc.Base.{
  ℕ, zero, suc, ◌+◌, ◌-◌, ◌*◌, ◌%◌, ◌^◌, Option, none, some, List, [], ◌∷◌, u32, ◌<<<◌, bit_or,
  ◌>>=◌, ◌==◌, leb, ltb, if◌then◌else◌,
}

abbrev pub base : ℕ
base = 65521

abbrev pub nmax : ℕ
nmax = 5552

pub record Sums : Type 0 where
  pub a : ℕ
  pub b : ℕ

-- DO1: a += buf[i]; b += a, in uint32.
unfoldable pub do1 : Sums → ℕ → Sums
do1 s x = let a = u32 (s.a + x) in record { a = a; b = u32 (s.b + a) }

unfoldable pub do4 : Sums → ℕ → ℕ → ℕ → ℕ → Sums
do4 s x0 x1 x2 x3 = do1 (do1 (do1 (do1 s x0) x1) x2) x3

-- `while(k >= 16)`: the sums, the bytes left and `k` after the unrolled loop. `none` is a read past
-- the end of the buffer.
unfoldable pub sum16 : Sums → List ℕ → ℕ → Option (Sums × List ℕ × ℕ)
sum16 s (x0 ∷ x1 ∷ x2 ∷ x3 ∷ x4 ∷ x5 ∷ x6 ∷ x7 ∷ x8 ∷ x9 ∷ xa ∷ xb ∷ xc ∷ xd ∷ xe ∷ xf ∷ buf) k =
    let s' = do4 (do4 (do4 (do4 s x0 x1 x2 x3) x4 x5 x6 x7) x8 x9 xa xb) xc xd xe xf in
    let rest = sum16 s' buf (k - 16) in
    if leb 16 k
    then rest
    else some
        (s, x0 ∷ x1 ∷ x2 ∷ x3 ∷ x4 ∷ x5 ∷ x6 ∷ x7 ∷ x8 ∷ x9 ∷ xa ∷ xb ∷ xc ∷ xd ∷ xe ∷ xf ∷ buf, k)
sum16 s buf k = if leb 16 k then none else some (s, buf, k)

-- `while(k-- != 0)`: the bytes that are left of the chunk.
unfoldable pub sum1 : Sums → List ℕ → ℕ → Option (Sums × List ℕ)
sum1 s buf zero = some (s, buf)
sum1 s [] (suc k) = none
sum1 s (x ∷ buf) (suc k) = sum1 (do1 s x) buf k

-- The body of `while(len > 0)` without its reduction: one chunk of `k` bytes.
unfoldable pub sum_chunk : Sums → List ℕ → ℕ → Option (Sums × List ℕ)
sum_chunk s buf k = sum16 s buf k >>= λ r. sum1 r.0 r.1 r.2

unfoldable pub reduce : Sums → Sums
reduce s = record { a = s.a % base; b = s.b % base }

-- The outer loop. Each round takes at least one byte, so `len` rounds are enough.
unfoldable pub chunks : ℕ → Sums → List ℕ → ℕ → Option Sums
chunks zero s buf len = if len == 0 then some s else none
chunks (suc fuel) s buf len =
    let k = if ltb nmax len then nmax else len in
    let round = sum_chunk s buf k >>= λ r. chunks fuel (reduce r.0) r.1 (len - k) in
    if len == 0 then some s else round

unfoldable pub adler32 : List ℕ → ℕ → Option ℕ
adler32 buf len =
    chunks len (record { a = 1; b = 0 }) buf len >>= λ s. some (bit_or s.a (u32 (s.b <<< 16)))
