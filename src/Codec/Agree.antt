-- ===== src/Codec/Agree.antt =====
-- Both branches of src/buffer_util.h read and write the same bytes.
use kaplarc.Base.{ℕ, ◌+◌, ◌*◌, ◌^◌, ◌<◌, ◌≡◌, refl, arith, List, ◌∷◌, All}
use kaplarc.Codec.Endian.Digits.{swap_u16_digits, swap_u32_digits, swap_u64_digits}
use kaplarc.Codec.Portable
use kaplarc.Codec.Portable.Digits.{
  decode_u16_be_digits, decode_u16_le_digits, decode_u32_be_digits, decode_u32_le_digits,
  decode_u64_be_digits, decode_u64_le_digits,
}
use kaplarc.Codec.Native

-- Into any memory, both branches write a uint16 the same way, in either byte order.
pub encode_u16_agree :
    (p : List ℕ) (val : ℕ)
    → val < 2 ^ 16
    → (Native.encode_u16_be p val ≡ Portable.encode_u16_be p val)
      × (Native.encode_u16_le p val ≡ Portable.encode_u16_le p val)
unfolding Native.encode_u16_be Native.encode_u16_le Portable.encode_u16_be Portable.encode_u16_le
encode_u16_agree (d0 ∷ d1 ∷ rest) val h = (ground (arith, swap_u16_digits val), refl)
encode_u16_agree _ val h = (refl, refl)

-- From any memory of bytes, both branches read the same uint16, in either byte order.
pub decode_u16_agree :
    (p : List ℕ)
    → All (λ b. b < 256) p
    → (Native.decode_u16_be p ≡ Portable.decode_u16_be p)
      × (Native.decode_u16_le p ≡ Portable.decode_u16_le p)
unfolding Native.decode_u16_be Native.decode_u16_le
decode_u16_agree (d0 ∷ d1 ∷ rest) h = (
  rw (decode_u16_be_digits d0 d1 rest (omega arith))
      (ground (arith, swap_u16_digits (d0 + d1 * 2 ^ 8))),
  rw (decode_u16_le_digits d0 d1 rest (omega arith)),
)
decode_u16_agree _ h = unfold Portable.decode_u16_be Portable.decode_u16_le in (refl, refl)

-- Into any memory, both branches write a uint32 the same way, in either byte order.
pub encode_u32_agree :
    (p : List ℕ) (val : ℕ)
    → val < 2 ^ 32
    → (Native.encode_u32_be p val ≡ Portable.encode_u32_be p val)
      × (Native.encode_u32_le p val ≡ Portable.encode_u32_le p val)
unfolding Native.encode_u32_be Native.encode_u32_le Portable.encode_u32_be Portable.encode_u32_le
encode_u32_agree (d0 ∷ d1 ∷ d2 ∷ d3 ∷ rest) val h = (ground (arith, swap_u32_digits val), refl)
encode_u32_agree _ val h = (refl, refl)

-- From any memory of bytes, both branches read the same uint32, in either byte order.
pub decode_u32_agree :
    (p : List ℕ)
    → All (λ b. b < 256) p
    → (Native.decode_u32_be p ≡ Portable.decode_u32_be p)
      × (Native.decode_u32_le p ≡ Portable.decode_u32_le p)
unfolding Native.decode_u32_be Native.decode_u32_le
decode_u32_agree (d0 ∷ d1 ∷ d2 ∷ d3 ∷ rest) h = (
  rw (decode_u32_be_digits d0 d1 d2 d3 rest (omega arith))
      (ground (arith, swap_u32_digits (d0 + d1 * 2 ^ 8 + d2 * 2 ^ 16 + d3 * 2 ^ 24))),
  rw (decode_u32_le_digits d0 d1 d2 d3 rest (omega arith)),
)
decode_u32_agree _ h = unfold Portable.decode_u32_be Portable.decode_u32_le in (refl, refl)

-- Into any memory, both branches write a uint64 the same way, in either byte order.
pub encode_u64_agree :
    (p : List ℕ) (val : ℕ)
    → val < 2 ^ 64
    → (Native.encode_u64_be p val ≡ Portable.encode_u64_be p val)
      × (Native.encode_u64_le p val ≡ Portable.encode_u64_le p val)
unfolding Native.encode_u64_be Native.encode_u64_le Portable.encode_u64_be Portable.encode_u64_le
encode_u64_agree (d0 ∷ d1 ∷ d2 ∷ d3 ∷ d4 ∷ d5 ∷ d6 ∷ d7 ∷ rest) val h =
    (ground (arith, swap_u64_digits val), refl)
encode_u64_agree _ val h = (refl, refl)

-- From any memory of bytes, both branches read the same uint64, in either byte order.
pub decode_u64_agree :
    (p : List ℕ)
    → All (λ b. b < 256) p
    → (Native.decode_u64_be p ≡ Portable.decode_u64_be p)
      × (Native.decode_u64_le p ≡ Portable.decode_u64_le p)
unfolding Native.decode_u64_be Native.decode_u64_le
decode_u64_agree (d0 ∷ d1 ∷ d2 ∷ d3 ∷ d4 ∷ d5 ∷ d6 ∷ d7 ∷ rest) h = (
  rw (decode_u64_be_digits d0 d1 d2 d3 d4 d5 d6 d7 rest (omega arith)) (
      ground (
        arith,
        swap_u64_digits (
            d0
            + d1 * 2 ^ 8
            + d2 * 2 ^ 16
            + d3 * 2 ^ 24
            + d4 * 2 ^ 32
            + d5 * 2 ^ 40
            + d6 * 2 ^ 48
            + d7 * 2 ^ 56),
      )),
  rw (decode_u64_le_digits d0 d1 d2 d3 d4 d5 d6 d7 rest (omega arith)),
)
decode_u64_agree _ h = unfold Portable.decode_u64_be Portable.decode_u64_le in (refl, refl)
