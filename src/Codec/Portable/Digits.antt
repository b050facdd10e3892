-- ===== src/Codec/Portable/Digits.antt =====
-- The shifts and ors of the byte-wise decoders, as sums of base-256 digits.
use kaplarc.Base.{ℕ, ◌+◌, ◌*◌, ◌^◌, ◌<◌, ◌≡◌, arith, some, List, [], ◌∷◌, All}
use kaplarc.Base.Bits.{or_disjoint, or_disjoint_low}
use kaplarc.Codec.Portable.{
  decode_u16_be, decode_u16_le, decode_u32_be, decode_u32_le, decode_u64_be, decode_u64_le,
}

pub decode_u16_le_digits :
    (d0 d1 : ℕ) (rest : List ℕ)
    → All (λ b. b < 256) (d0 ∷ d1 ∷ [])
    → decode_u16_le (d0 ∷ d1 ∷ rest) ≡ some (d0 + d1 * 2 ^ 8)
unfolding decode_u16_le
decode_u16_le_digits d0 d1 rest h = ground (arith, or_disjoint_low 8 d1 (d0) (omega arith))

pub decode_u16_be_digits :
    (d0 d1 : ℕ) (rest : List ℕ)
    → All (λ b. b < 256) (d0 ∷ d1 ∷ [])
    → decode_u16_be (d0 ∷ d1 ∷ rest) ≡ some (d0 * 2 ^ 8 + d1)
unfolding decode_u16_be
decode_u16_be_digits d0 d1 rest h = ground (arith, or_disjoint 8 (d0) (d1) (omega arith))

pub decode_u32_le_digits :
    (d0 d1 d2 d3 : ℕ) (rest : List ℕ)
    → All (λ b. b < 256) (d0 ∷ d1 ∷ d2 ∷ d3 ∷ [])
    → decode_u32_le (d0 ∷ d1 ∷ d2 ∷ d3 ∷ rest) ≡ some (d0 + d1 * 2 ^ 8 + d2 * 2 ^ 16 + d3 * 2 ^ 24)
unfolding decode_u32_le
decode_u32_le_digits d0 d1 d2 d3 rest h = ground (
  arith,
  or_disjoint_low 8 d1 (d0) (omega arith),
  or_disjoint_low 16 d2 (d0 + d1 * 2 ^ 8) (omega arith),
  or_disjoint_low 24 d3 (d0 + d1 * 2 ^ 8 + d2 * 2 ^ 16) (omega arith),
)

pub decode_u32_be_digits :
    (d0 d1 d2 d3 : ℕ) (rest : List ℕ)
    → All (λ b. b < 256) (d0 ∷ d1 ∷ d2 ∷ d3 ∷ [])
    → decode_u32_be (d0 ∷ d1 ∷ d2 ∷ d3 ∷ rest) ≡ some (d0 * 2 ^ 24 + d1 * 2 ^ 16 + d2 * 2 ^ 8 + d3)
unfolding decode_u32_be
decode_u32_be_digits d0 d1 d2 d3 rest h = ground (
  arith,
  or_disjoint 24 (d0) (d1 * 2 ^ 16) (omega arith),
  or_disjoint 16 (d0 * 2 ^ 8 + d1) (d2 * 2 ^ 8) (omega arith),
  or_disjoint 8 (d0 * 2 ^ 16 + d1 * 2 ^ 8 + d2) (d3) (omega arith),
)

pub decode_u64_le_digits :
    (d0 d1 d2 d3 d4 d5 d6 d7 : ℕ) (rest : List ℕ)
    → All (λ b. b < 256) (d0 ∷ d1 ∷ d2 ∷ d3 ∷ d4 ∷ d5 ∷ d6 ∷ d7 ∷ [])
    → decode_u64_le (d0 ∷ d1 ∷ d2 ∷ d3 ∷ d4 ∷ d5 ∷ d6 ∷ d7 ∷ rest)
      ≡ some (
          d0
          + d1 * 2 ^ 8
          + d2 * 2 ^ 16
          + d3 * 2 ^ 24
          + d4 * 2 ^ 32
          + d5 * 2 ^ 40
          + d6 * 2 ^ 48
          + d7 * 2 ^ 56)
unfolding decode_u64_le
decode_u64_le_digits d0 d1 d2 d3 d4 d5 d6 d7 rest h = ground (
  arith,
  or_disjoint_low 8 d1 (d0) (omega arith),
  or_disjoint_low 16 d2 (d0 + d1 * 2 ^ 8) (omega arith),
  or_disjoint_low 24 d3 (d0 + d1 * 2 ^ 8 + d2 * 2 ^ 16) (omega arith),
  or_disjoint_low 32 d4 (d0 + d1 * 2 ^ 8 + d2 * 2 ^ 16 + d3 * 2 ^ 24) (omega arith),
  or_disjoint_low 40 d5 (d0 + d1 * 2 ^ 8 + d2 * 2 ^ 16 + d3 * 2 ^ 24 + d4 * 2 ^ 32) (omega arith),
  or_disjoint_low 48 d6 (d0 + d1 * 2 ^ 8 + d2 * 2 ^ 16 + d3 * 2 ^ 24 + d4 * 2 ^ 32 + d5 * 2 ^ 40)
      (omega arith),
  or_disjoint_low 56 d7
      (d0 + d1 * 2 ^ 8 + d2 * 2 ^ 16 + d3 * 2 ^ 24 + d4 * 2 ^ 32 + d5 * 2 ^ 40 + d6 * 2 ^ 48)
      (omega arith),
)

pub decode_u64_be_digits :
    (d0 d1 d2 d3 d4 d5 d6 d7 : ℕ) (rest : List ℕ)
    → All (λ b. b < 256) (d0 ∷ d1 ∷ d2 ∷ d3 ∷ d4 ∷ d5 ∷ d6 ∷ d7 ∷ [])
    → decode_u64_be (d0 ∷ d1 ∷ d2 ∷ d3 ∷ d4 ∷ d5 ∷ d6 ∷ d7 ∷ rest)
      ≡ some (
          d0 * 2 ^ 56
          + d1 * 2 ^ 48
          + d2 * 2 ^ 40
          + d3 * 2 ^ 32
          + d4 * 2 ^ 24
          + d5 * 2 ^ 16
          + d6 * 2 ^ 8
          + d7)
unfolding decode_u64_be
decode_u64_be_digits d0 d1 d2 d3 d4 d5 d6 d7 rest h = ground (
  arith,
  or_disjoint 56 (d0) (d1 * 2 ^ 48) (omega arith),
  or_disjoint 48 (d0 * 2 ^ 8 + d1) (d2 * 2 ^ 40) (omega arith),
  or_disjoint 40 (d0 * 2 ^ 16 + d1 * 2 ^ 8 + d2) (d3 * 2 ^ 32) (omega arith),
  or_disjoint 32 (d0 * 2 ^ 24 + d1 * 2 ^ 16 + d2 * 2 ^ 8 + d3) (d4 * 2 ^ 24) (omega arith),
  or_disjoint 24 (d0 * 2 ^ 32 + d1 * 2 ^ 24 + d2 * 2 ^ 16 + d3 * 2 ^ 8 + d4) (d5 * 2 ^ 16)
      (omega arith),
  or_disjoint 16 (d0 * 2 ^ 40 + d1 * 2 ^ 32 + d2 * 2 ^ 24 + d3 * 2 ^ 16 + d4 * 2 ^ 8 + d5)
      (d6 * 2 ^ 8) (omega arith),
  or_disjoint 8
      (d0 * 2 ^ 48 + d1 * 2 ^ 40 + d2 * 2 ^ 32 + d3 * 2 ^ 24 + d4 * 2 ^ 16 + d5 * 2 ^ 8 + d6) (d7)
      (omega arith),
)
