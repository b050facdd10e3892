-- ===== src/Codec/Native.antt =====
-- src/buffer_util.h, the branch of ARCH_UNALIGNED_ACCESS with ARCH_BIG_ENDIAN 0: whole words are
-- stored and loaded at the pointer, and swapped for the other byte order.
use kaplarc.Base.{ℕ, ◌+◌, ◌*◌, ◌^◌, Option, none, some, List, ◌∷◌, u8, ◌>>>◌, ◌>>=◌}
use kaplarc.Codec.Endian.{swap_u16, swap_u32, swap_u64}

-- `*(uint16*)(data) = val` and `*(uint16*)(data)` on a little-endian machine.
unfoldable pub store16 : List ℕ → ℕ → Option (List ℕ)
store16 (_ ∷ _ ∷ rest) val = some (u8 val ∷ u8 (val >>> 8) ∷ rest)
store16 _ val = none

unfoldable pub load16 : List ℕ → Option ℕ
load16 (d0 ∷ d1 ∷ _) = some (d0 + d1 * 2 ^ 8)
load16 _ = none

unfoldable pub store32 : List ℕ → ℕ → Option (List ℕ)
store32 (_ ∷ _ ∷ _ ∷ _ ∷ rest) val =
    some (u8 val ∷ u8 (val >>> 8) ∷ u8 (val >>> 16) ∷ u8 (val >>> 24) ∷ rest)
store32 _ val = none

unfoldable pub load32 : List ℕ → Option ℕ
load32 (d0 ∷ d1 ∷ d2 ∷ d3 ∷ _) = some (d0 + d1 * 2 ^ 8 + d2 * 2 ^ 16 + d3 * 2 ^ 24)
load32 _ = none

unfoldable pub store64 : List ℕ → ℕ → Option (List ℕ)
store64 (_ ∷ _ ∷ _ ∷ _ ∷ _ ∷ _ ∷ _ ∷ _ ∷ rest) val = some (
    u8 val
    ∷ u8 (val >>> 8)
    ∷ u8 (val >>> 16)
    ∷ u8 (val >>> 24)
    ∷ u8 (val >>> 32)
    ∷ u8 (val >>> 40)
    ∷ u8 (val >>> 48)
    ∷ u8 (val >>> 56)
    ∷ rest)
store64 _ val = none

unfoldable pub load64 : List ℕ → Option ℕ
load64 (d0 ∷ d1 ∷ d2 ∷ d3 ∷ d4 ∷ d5 ∷ d6 ∷ d7 ∷ _) = some (
    d0
    + d1 * 2 ^ 8
    + d2 * 2 ^ 16
    + d3 * 2 ^ 24
    + d4 * 2 ^ 32
    + d5 * 2 ^ 40
    + d6 * 2 ^ 48
    + d7 * 2 ^ 56)
load64 _ = none

-- u16_cpu_to_be and u16_be_to_cpu are `swap_u16`; the `le` macros are the identity.
unfoldable pub encode_u16_be : List ℕ → ℕ → Option (List ℕ)
unfolding store16
encode_u16_be p val = store16 p (swap_u16 val)

unfoldable pub decode_u16_be : List ℕ → Option ℕ
unfolding load16
decode_u16_be p = load16 p >>= λ val. some (swap_u16 val)

unfoldable pub encode_u16_le : List ℕ → ℕ → Option (List ℕ)
unfolding store16
encode_u16_le p val = store16 p val

unfoldable pub decode_u16_le : List ℕ → Option ℕ
unfolding load16
decode_u16_le p = load16 p

unfoldable pub encode_u32_be : List ℕ → ℕ → Option (List ℕ)
unfolding store32
encode_u32_be p val = store32 p (swap_u32 val)

unfoldable pub decode_u32_be : List ℕ → Option ℕ
unfolding load32
decode_u32_be p = load32 p >>= λ val. some (swap_u32 val)

unfoldable pub encode_u32_le : List ℕ → ℕ → Option (List ℕ)
unfolding store32
encode_u32_le p val = store32 p val

unfoldable pub decode_u32_le : List ℕ → Option ℕ
unfolding load32
decode_u32_le p = load32 p

unfoldable pub encode_u64_be : List ℕ → ℕ → Option (List ℕ)
unfolding store64
encode_u64_be p val = store64 p (swap_u64 val)

unfoldable pub decode_u64_be : List ℕ → Option ℕ
unfolding load64
decode_u64_be p = load64 p >>= λ val. some (swap_u64 val)

unfoldable pub encode_u64_le : List ℕ → ℕ → Option (List ℕ)
unfolding store64
encode_u64_le p val = store64 p val

unfoldable pub decode_u64_le : List ℕ → Option ℕ
unfolding load64
decode_u64_le p = load64 p
