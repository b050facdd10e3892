-- ===== src/Checksum/Murmur.antt =====
-- src/murmur2.c, on a little-endian target: a 32-bit hash of a buffer. `none` is a read past its
-- end.
pub mod Reads
mod Tests
use kaplarc.Base.{
  ℕ, ◌+◌, ◌-◌, ◌*◌, ◌/◌, ◌%◌, ◌^◌, zero, suc, Option, none, some, List, [], ◌∷◌, u32, ◌<<<◌, ◌>>>◌,
  bit_xor, leb, if◌then◌else◌, ◌>>=◌,
}
use kaplarc.Codec.Portable.{decode_u32_le}

abbrev pub murmur2_m : ℕ
murmur2_m = 0x5bd1e995

-- One round of the loop, for the word `k`.
unfoldable pub mix_word : ℕ → ℕ → ℕ
mix_word h k =
    let k1 = u32 (k * murmur2_m) in
    let k2 = bit_xor k1 (k1 >>> 24) in
    let k3 = u32 (k2 * murmur2_m) in bit_xor (u32 (h * murmur2_m)) k3

-- The switch on the bytes that are left, each case falling through to the next.
unfoldable pub mix_rest : ℕ → List ℕ → ℕ → Option ℕ
mix_rest h p zero = some h
mix_rest h (d0 ∷ p) (suc zero) = some (u32 (bit_xor h d0 * murmur2_m))
mix_rest h (d0 ∷ d1 ∷ p) (suc (suc zero)) =
    some (u32 (bit_xor (bit_xor h (d1 <<< 8)) d0 * murmur2_m))
mix_rest h (d0 ∷ d1 ∷ d2 ∷ p) (suc (suc (suc zero))) =
    some (u32 (bit_xor (bit_xor (bit_xor h (d2 <<< 16)) (d1 <<< 8)) d0 * murmur2_m))
mix_rest h p len = none

-- `while(len >= 4)`, and the switch after it.
unfoldable pub mix_words : ℕ → List ℕ → ℕ → Option ℕ
mix_words h (d0 ∷ d1 ∷ d2 ∷ d3 ∷ p) len =
    let loop =
      decode_u32_le (d0 ∷ d1 ∷ d2 ∷ d3 ∷ p) >>= λ k. mix_words (mix_word h k) p (len - 4) in
    if leb 4 len then loop else mix_rest h (d0 ∷ d1 ∷ d2 ∷ d3 ∷ p) len
mix_words h p len = if leb 4 len then none else mix_rest h p len

-- The last hash mix.
unfoldable pub final_mix : ℕ → ℕ
final_mix h =
    let h1 = bit_xor h (h >>> 13) in let h2 = u32 (h1 * murmur2_m) in bit_xor h2 (h2 >>> 15)

unfoldable pub murmur2_32 : List ℕ → ℕ → ℕ → Option ℕ
murmur2_32 input len seed = mix_words (bit_xor (u32 len) seed) input len >>= λ h. some (final_mix h)
