-- ===== src/Codec/Portable/RoundTrip.antt =====
-- The byte-wise encoders and decoders are inverse to one another, in both byte orders.
use kaplarc.Base.{ℕ, ◌/◌, ◌%◌, ◌^◌, ◌≤◌, ◌<◌, ◌≡◌, arith, some, List, ◌∷◌, length, All, ◌>>=◌}
use kaplarc.Codec.Portable.{
  encode_u16_be, encode_u16_le, encode_u32_be, encode_u32_le, encode_u64_be, encode_u64_le,
  decode_u16_be, decode_u16_le, decode_u32_be, decode_u32_le, decode_u64_be, decode_u64_le,
}
use kaplarc.Codec.Portable.Digits.{
  decode_u16_be_digits, decode_u16_le_digits, decode_u32_be_digits, decode_u32_le_digits,
  decode_u64_be_digits, decode_u64_le_digits,
}

-- A uint16 that is written in little-endian order where there is room for it is read back.
pub decode-encode_u16_le :
    (p : List ℕ) (val : ℕ)
    → 2 ≤ length p
    → val < 2 ^ 16
    → (encode_u16_le p val >>= decode_u16_le) ≡ some val
unfolding encode_u16_le
decode-encode_u16_le (d0 ∷ d1 ∷ rest) val h fits =
    ground (arith, decode_u16_le_digits (val % 256) (val / 2 ^ 8 % 256) rest (omega arith))
decode-encode_u16_le _ val h fits = absurd (omega arith)

-- A uint16 that is written in big-endian order where there is room for it is read back.
pub decode-encode_u16_be :
    (p : List ℕ) (val : ℕ)
    → 2 ≤ length p
    → val < 2 ^ 16
    → (encode_u16_be p val >>= decode_u16_be) ≡ some val
unfolding encode_u16_be
decode-encode_u16_be (d0 ∷ d1 ∷ rest) val h fits =
    ground (arith, decode_u16_be_digits (val / 2 ^ 8 % 256) (val % 256) rest (omega arith))
decode-encode_u16_be _ val h fits = absurd (omega arith)

-- The 2 bytes that a little-endian uint16 is read from are those that writing it leaves.
pub encode-decode_u16_le :
    (p : List ℕ)
    → 2 ≤ length p
    → All (λ b. b < 256) p
    → (decode_u16_le p >>= encode_u16_le p) ≡ some p
unfolding encode_u16_le
encode-decode_u16_le (d0 ∷ d1 ∷ rest) h bytes =
    rw (decode_u16_le_digits d0 d1 rest (omega arith)) (ground arith)
encode-decode_u16_le _ h bytes = absurd (omega arith)

-- The 2 bytes that a big-endian uint16 is read from are those that writing it leaves.
pub encode-decode_u16_be :
    (p : List ℕ)
    → 2 ≤ length p
    → All (λ b. b < 256) p
    → (decode_u16_be p >>= encode_u16_be p) ≡ some p
unfolding encode_u16_be
encode-decode_u16_be (d0 ∷ d1 ∷ rest) h bytes =
    rw (decode_u16_be_digits d0 d1 rest (omega arith)) (ground arith)
encode-decode_u16_be _ h bytes = absurd (omega arith)

-- A uint32 that is written in little-endian order where there is room for it is read back.
pub decode-encode_u32_le :
    (p : List ℕ) (val : ℕ)
    → 4 ≤ length p
    → val < 2 ^ 32
    → (encode_u32_le p val >>= decode_u32_le) ≡ some val
unfolding encode_u32_le
decode-encode_u32_le (d0 ∷ d1 ∷ d2 ∷ d3 ∷ rest) val h fits = ground (
  arith,
  decode_u32_le_digits (val % 256) (val / 2 ^ 8 % 256) (val / 2 ^ 16 % 256) (val / 2 ^ 24 % 256)
      rest (omega arith),
)
decode-encode_u32_le _ val h fits = absurd (omega arith)

-- A uint32 that is written in big-endian order where there is room for it is read back.
pub decode-encode_u32_be :
    (p : List ℕ) (val : ℕ)
    → 4 ≤ length p
    → val < 2 ^ 32
    → (encode_u32_be p val >>= decode_u32_be) ≡ some val
unfolding encode_u32_be
decode-encode_u32_be (d0 ∷ d1 ∷ d2 ∷ d3 ∷ rest) val h fits = ground (
  arith,
  decode_u32_be_digits (val / 2 ^ 24 % 256) (val / 2 ^ 16 % 256) (val / 2 ^ 8 % 256) (val % 256)
      rest (omega arith),
)
decode-encode_u32_be _ val h fits = absurd (omega arith)

-- The 4 bytes that a little-endian uint32 is read from are those that writing it leaves.
pub encode-decode_u32_le :
    (p : List ℕ)
    → 4 ≤ length p
    → All (λ b. b < 256) p
    → (decode_u32_le p >>= encode_u32_le p) ≡ some p
unfolding encode_u32_le
encode-decode_u32_le (d0 ∷ d1 ∷ d2 ∷ d3 ∷ rest) h bytes =
    rw (decode_u32_le_digits d0 d1 d2 d3 rest (omega arith)) (ground arith)
encode-decode_u32_le _ h bytes = absurd (omega arith)

-- The 4 bytes that a big-endian uint32 is read from are those that writing it leaves.
pub encode-decode_u32_be :
    (p : List ℕ)
    → 4 ≤ length p
    → All (λ b. b < 256) p
    → (decode_u32_be p >>= encode_u32_be p) ≡ some p
unfolding encode_u32_be
encode-decode_u32_be (d0 ∷ d1 ∷ d2 ∷ d3 ∷ rest) h bytes =
    rw (decode_u32_be_digits d0 d1 d2 d3 rest (omega arith)) (ground arith)
encode-decode_u32_be _ h bytes = absurd (omega arith)

-- A uint64 that is written in little-endian order where there is room for it is read back.
pub decode-encode_u64_le :
    (p : List ℕ) (val : ℕ)
    → 8 ≤ length p
    → val < 2 ^ 64
    → (encode_u64_le p val >>= decode_u64_le) ≡ some val
unfolding encode_u64_le
decode-encode_u64_le (d0 ∷ d1 ∷ d2 ∷ d3 ∷ d4 ∷ d5 ∷ d6 ∷ d7 ∷ rest) val h fits = ground (
  arith,
  decode_u64_le_digits (val % 256) (val / 2 ^ 8 % 256) (val / 2 ^ 16 % 256) (val / 2 ^ 24 % 256)
      (val / 2 ^ 32 % 256) (val / 2 ^ 40 % 256) (val / 2 ^ 48 % 256) (val / 2 ^ 56 % 256) rest
      (omega arith),
)
decode-encode_u64_le _ val h fits = absurd (omega arith)

-- A uint64 that is written in big-endian order where there is room for it is read back.
pub decode-encode_u64_be :
    (p : List ℕ) (val : ℕ)
    → 8 ≤ length p
    → val < 2 ^ 64
    → (encode_u64_be p val >>= decode_u64_be) ≡ some val
unfolding encode_u64_be
decode-encode_u64_be (d0 ∷ d1 ∷ d2 ∷ d3 ∷ d4 ∷ d5 ∷ d6 ∷ d7 ∷ rest) val h fits = ground (
  arith,
  decode_u64_be_digits (val / 2 ^ 56 % 256) (val / 2 ^ 48 % 256) (val / 2 ^ 40 % 256)
      (val / 2 ^ 32 % 256) (val / 2 ^ 24 % 256) (val / 2 ^ 16 % 256) (val / 2 ^ 8 % 256) (val % 256)
      rest (omega arith),
)
decode-encode_u64_be _ val h fits = absurd (omega arith)

-- The 8 bytes that a little-endian uint64 is read from are those that writing it leaves.
pub encode-decode_u64_le :
    (p : List ℕ)
    → 8 ≤ length p
    → All (λ b. b < 256) p
    → (decode_u64_le p >>= encode_u64_le p) ≡ some p
unfolding encode_u64_le
encode-decode_u64_le (d0 ∷ d1 ∷ d2 ∷ d3 ∷ d4 ∷ d5 ∷ d6 ∷ d7 ∷ rest) h bytes =
    rw (decode_u64_le_digits d0 d1 d2 d3 d4 d5 d6 d7 rest (omega arith)) (ground arith)
encode-decode_u64_le _ h bytes = absurd (omega arith)

-- The 8 bytes that a big-endian uint64 is read from are those that writing it leaves.
pub encode-decode_u64_be :
    (p : List ℕ)
    → 8 ≤ length p
    → All (λ b. b < 256) p
    → (decode_u64_be p >>= encode_u64_be p) ≡ some p
unfolding encode_u64_be
encode-decode_u64_be (d0 ∷ d1 ∷ d2 ∷ d3 ∷ d4 ∷ d5 ∷ d6 ∷ d7 ∷ rest) h bytes =
    rw (decode_u64_be_digits d0 d1 d2 d3 d4 d5 d6 d7 rest (omega arith)) (ground arith)
encode-decode_u64_be _ h bytes = absurd (omega arith)
