-- ===== src/Codec/Endian.antt =====
-- src/endian.h: the byte swaps, as masks and shifts.
pub mod Digits
use kaplarc.Base.{ℕ, ◌*◌, ◌/◌, ◌%◌, ◌^◌, u16, u32, u64, ◌<<<◌, ◌>>>◌, bit_and, bit_or}

unfoldable pub swap_u16 : ℕ → ℕ
swap_u16 x = u16 (bit_or (bit_and x 0xFF00 >>> 8) (bit_and x 0x00FF <<< 8))

unfoldable pub swap_u32 : ℕ → ℕ
swap_u32 x =
    bit_or
      (bit_or (bit_or (bit_and x 0xFF000000 >>> 24) (bit_and x 0x00FF0000 >>> 8))
        (u32 (bit_and x 0x0000FF00 <<< 8)))
      (u32 (bit_and x 0x000000FF <<< 24))

unfoldable pub swap_u64 : ℕ → ℕ
swap_u64 x =
    bit_or
      (bit_or
        (bit_or
          (bit_or
            (bit_or
              (bit_or
                (bit_or (bit_and x 0xFF00000000000000 >>> 56) (bit_and x 0x00FF000000000000 >>> 40))
                (bit_and x 0x0000FF0000000000 >>> 24))
              (bit_and x 0x000000FF00000000 >>> 8))
            (u64 (bit_and x 0x00000000FF000000 <<< 8)))
          (u64 (bit_and x 0x0000000000FF0000 <<< 24)))
        (u64 (bit_and x 0x000000000000FF00 <<< 40)))
      (u64 (bit_and x 0x00000000000000FF <<< 56))
