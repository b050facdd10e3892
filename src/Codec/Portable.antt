-- ===== src/Codec/Portable.antt =====
-- src/buffer_util.h, the branch that moves single bytes. A list is the memory from the pointer
-- `data` on; `none` is an access past the end of that memory.
pub mod Digits
pub mod RoundTrip
use kaplarc.Base.{
  ℕ, ◌*◌, ◌/◌, ◌%◌, ◌^◌, Option, none, some, List, [], ◌∷◌, u8, u16, u32, u64, ◌<<<◌, ◌>>>◌, bit_or,
}

unfoldable pub encode_u8 : List ℕ → ℕ → Option (List ℕ)
encode_u8 (_ ∷ rest) val = some (val ∷ rest)
encode_u8 _ val = none

unfoldable pub decode_u8 : List ℕ → Option ℕ
decode_u8 (d0 ∷ _) = some d0
decode_u8 _ = none

unfoldable pub encode_u16_be : List ℕ → ℕ → Option (List ℕ)
encode_u16_be (_ ∷ _ ∷ rest) val = some (u8 (val >>> 8) ∷ u8 val ∷ rest)
encode_u16_be _ val = none

unfoldable pub decode_u16_be : List ℕ → Option ℕ
decode_u16_be (d0 ∷ d1 ∷ _) = some (u16 (bit_or (d0 <<< 8) d1))
decode_u16_be _ = none

unfoldable pub encode_u16_le : List ℕ → ℕ → Option (List ℕ)
encode_u16_le (_ ∷ _ ∷ rest) val = some (u8 val ∷ u8 (val >>> 8) ∷ rest)
encode_u16_le _ val = none

unfoldable pub decode_u16_le : List ℕ → Option ℕ
decode_u16_le (d0 ∷ d1 ∷ _) = some (u16 (bit_or d0 (d1 <<< 8)))
decode_u16_le _ = none

unfoldable pub encode_u32_be : List ℕ → ℕ → Option (List ℕ)
encode_u32_be (_ ∷ _ ∷ _ ∷ _ ∷ rest) val =
    some (u8 (val >>> 24) ∷ u8 (val >>> 16) ∷ u8 (val >>> 8) ∷ u8 val ∷ rest)
encode_u32_be _ val = none

unfoldable pub decode_u32_be : List ℕ → Option ℕ
decode_u32_be (d0 ∷ d1 ∷ d2 ∷ d3 ∷ _) =
    some (bit_or (bit_or (bit_or (u32 (d0 <<< 24)) (u32 (d1 <<< 16))) (u32 (d2 <<< 8))) d3)
decode_u32_be _ = none

unfoldable pub encode_u32_le : List ℕ → ℕ → Option (List ℕ)
encode_u32_le (_ ∷ _ ∷ _ ∷ _ ∷ rest) val =
    some (u8 val ∷ u8 (val >>> 8) ∷ u8 (val >>> 16) ∷ u8 (val >>> 24) ∷ rest)
encode_u32_le _ val = none

unfoldable pub decode_u32_le : List ℕ → Option ℕ
decode_u32_le (d0 ∷ d1 ∷ d2 ∷ d3 ∷ _) =
    some (bit_or (bit_or (bit_or d0 (u32 (d1 <<< 8))) (u32 (d2 <<< 16))) (u32 (d3 <<< 24)))
decode_u32_le _ = none

unfoldable pub encode_u64_be : List ℕ → ℕ → Option (List ℕ)
encode_u64_be (_ ∷ _ ∷ _ ∷ _ ∷ _ ∷ _ ∷ _ ∷ _ ∷ rest) val = some (
    u8 (val >>> 56)
    ∷ u8 (val >>> 48)
    ∷ u8 (val >>> 40)
    ∷ u8 (val >>> 32)
    ∷ u8 (val >>> 24)
    ∷ u8 (val >>> 16)
    ∷ u8 (val >>> 8)
    ∷ u8 val
    ∷ rest)
encode_u64_be _ val = none

unfoldable pub decode_u64_be : List ℕ → Option ℕ
decode_u64_be (d0 ∷ d1 ∷ d2 ∷ d3 ∷ d4 ∷ d5 ∷ d6 ∷ d7 ∷ _) =
    let a = bit_or (u64 (d0 <<< 56)) (u64 (d1 <<< 48)) in
    let b = bit_or (bit_or a (u64 (d2 <<< 40))) (u64 (d3 <<< 32)) in
    let c = bit_or (bit_or b (u64 (d4 <<< 24))) (u64 (d5 <<< 16)) in
    some (bit_or (bit_or c (u64 (d6 <<< 8))) d7)
decode_u64_be _ = none

unfoldable pub encode_u64_le : List ℕ → ℕ → Option (List ℕ)
encode_u64_le (_ ∷ _ ∷ _ ∷ _ ∷ _ ∷ _ ∷ _ ∷ _ ∷ rest) val = some (
    u8 val
    ∷ u8 (val >>> 8)
    ∷ u8 (val >>> 16)
    ∷ u8 (val >>> 24)
    ∷ u8 (val >>> 32)
    ∷ u8 (val >>> 40)
    ∷ u8 (val >>> 48)
    ∷ u8 (val >>> 56)
    ∷ rest)
encode_u64_le _ val = none

unfoldable pub decode_u64_le : List ℕ → Option ℕ
decode_u64_le (d0 ∷ d1 ∷ d2 ∷ d3 ∷ d4 ∷ d5 ∷ d6 ∷ d7 ∷ _) =
    let a = bit_or d0 (u64 (d1 <<< 8)) in
    let b = bit_or (bit_or a (u64 (d2 <<< 16))) (u64 (d3 <<< 24)) in
    let c = bit_or (bit_or b (u64 (d4 <<< 32))) (u64 (d5 <<< 40)) in
    some (bit_or (bit_or c (u64 (d6 <<< 48))) (u64 (d7 <<< 56)))
decode_u64_le _ = none
