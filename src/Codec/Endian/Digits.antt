-- ===== src/Codec/Endian/Digits.antt =====
-- The byte swaps as sums of base-256 digits.
use kaplarc.Base.{ℕ, ◌+◌, ◌*◌, ◌/◌, ◌%◌, ◌^◌, ◌<◌, ◌≡◌, arith}
use kaplarc.Base.Bits.{or_disjoint_low, and_ones_mod, and_ones_shifted}
use kaplarc.Codec.Endian.{swap_u16, swap_u32, swap_u64}

pub swap_u16_digits : (x : ℕ) → x < 2 ^ 16 → swap_u16 x ≡ x / 256 + x % 256 * 256
unfolding swap_u16
swap_u16_digits x h = ground (
  arith,
  and_ones_shifted 8 8 x,
  and_ones_mod 8 x,
  or_disjoint_low 8 (x % 256) (x / 256) (omega arith),
)

pub swap_u32_digits :
    (x : ℕ)
    → x < 2 ^ 32
    → swap_u32 x
      ≡ x / 2 ^ 24 + x / 2 ^ 16 % 256 * 2 ^ 8 + x / 2 ^ 8 % 256 * 2 ^ 16 + x % 256 * 2 ^ 24
unfolding swap_u32
swap_u32_digits x h = ground (
  arith,
  and_ones_shifted 24 8 x,
  and_ones_shifted 16 8 x,
  and_ones_shifted 8 8 x,
  and_ones_mod 8 x,
  or_disjoint_low 8 (x / 2 ^ 16 % 256) (x / 2 ^ 24) (omega arith),
  or_disjoint_low 16 (x / 2 ^ 8 % 256) (x / 2 ^ 24 + x / 2 ^ 16 % 256 * 2 ^ 8) (omega arith),
  or_disjoint_low 24 (x % 256) (x / 2 ^ 24 + x / 2 ^ 16 % 256 * 2 ^ 8 + x / 2 ^ 8 % 256 * 2 ^ 16)
      (omega arith),
)

pub swap_u64_digits :
    (x : ℕ)
    → x < 2 ^ 64
    → swap_u64 x
      ≡ x / 2 ^ 56
        + x / 2 ^ 48 % 256 * 2 ^ 8
        + x / 2 ^ 40 % 256 * 2 ^ 16
        + x / 2 ^ 32 % 256 * 2 ^ 24
        + x / 2 ^ 24 % 256 * 2 ^ 32
        + x / 2 ^ 16 % 256 * 2 ^ 40
        + x / 2 ^ 8 % 256 * 2 ^ 48
        + x % 256 * 2 ^ 56
unfolding swap_u64
swap_u64_digits x h = ground (
  arith,
  and_ones_shifted 56 8 x,
  and_ones_shifted 48 8 x,
  and_ones_shifted 40 8 x,
  and_ones_shifted 32 8 x,
  and_ones_shifted 24 8 x,
  and_ones_shifted 16 8 x,
  and_ones_shifted 8 8 x,
  and_ones_mod 8 x,
  or_disjoint_low 8 (x / 2 ^ 48 % 256) (x / 2 ^ 56) (omega arith),
  or_disjoint_low 16 (x / 2 ^ 40 % 256) (x / 2 ^ 56 + x / 2 ^ 48 % 256 * 2 ^ 8) (omega arith),
  or_disjoint_low 24 (x / 2 ^ 32 % 256)
      (x / 2 ^ 56 + x / 2 ^ 48 % 256 * 2 ^ 8 + x / 2 ^ 40 % 256 * 2 ^ 16) (omega arith),
  or_disjoint_low 32 (x / 2 ^ 24 % 256)
      (x / 2 ^ 56
        + x / 2 ^ 48 % 256 * 2 ^ 8
        + x / 2 ^ 40 % 256 * 2 ^ 16
        + x / 2 ^ 32 % 256 * 2 ^ 24)
      (omega arith),
  or_disjoint_low 40 (x / 2 ^ 16 % 256)
      (x / 2 ^ 56
        + x / 2 ^ 48 % 256 * 2 ^ 8
        + x / 2 ^ 40 % 256 * 2 ^ 16
        + x / 2 ^ 32 % 256 * 2 ^ 24
        + x / 2 ^ 24 % 256 * 2 ^ 32)
      (omega arith),
  or_disjoint_low 48 (x / 2 ^ 8 % 256)
      (x / 2 ^ 56
        + x / 2 ^ 48 % 256 * 2 ^ 8
        + x / 2 ^ 40 % 256 * 2 ^ 16
        + x / 2 ^ 32 % 256 * 2 ^ 24
        + x / 2 ^ 24 % 256 * 2 ^ 32
        + x / 2 ^ 16 % 256 * 2 ^ 40)
      (omega arith),
  or_disjoint_low 56 (x % 256)
      (x / 2 ^ 56
        + x / 2 ^ 48 % 256 * 2 ^ 8
        + x / 2 ^ 40 % 256 * 2 ^ 16
        + x / 2 ^ 32 % 256 * 2 ^ 24
        + x / 2 ^ 24 % 256 * 2 ^ 32
        + x / 2 ^ 16 % 256 * 2 ^ 40
        + x / 2 ^ 8 % 256 * 2 ^ 48)
      (omega arith),
)
