-- ===== src/Crypto/Xtea.antt =====
-- src/crypto/xtea.c: the block cipher of the game protocol, in place over a byte buffer.
pub mod Rounds
pub mod Words
pub mod RoundTrip
mod Tests
use kaplarc.Base.{
  ℕ, zero, suc, ◌+◌, ◌-◌, ◌*◌, ◌/◌, ◌%◌, ◌^◌, Option, none, some, List, [], ◌∷◌, ◌++◌, take, drop,
  get_or, u32, sub32, sub64, ◌<<<◌, ◌>>>◌, bit_and, bit_xor, ◌>>=◌, ◌==◌, if◌then◌else◌,
}
use kaplarc.Codec.Portable.{decode_u32_le, encode_u32_le}

-- The variables of the round loop.
pub record Block : Type 0 where
  pub v0 : ℕ
  pub v1 : ℕ
  pub sum : ℕ

abbrev pub delta : ℕ
delta = 0x9E3779B9

-- ((v << 4 ^ v >> 5) + v) ^ (sum + k[i])
unfoldable pub mix : List ℕ → ℕ → ℕ → ℕ → ℕ
mix k v sum i = bit_xor (u32 (bit_xor (u32 (v <<< 4)) (v >>> 5) + v)) (u32 (sum + get_or k i 0))

unfoldable pub encode_round : List ℕ → Block → Block
encode_round k b =
    let v0 = u32 (b.v0 + mix k b.v1 b.sum (bit_and b.sum 3)) in
    let sum = u32 (b.sum + delta) in
    let v1 = u32 (b.v1 + mix k v0 sum (bit_and (sum >>> 11) 3)) in
    record { v0 = v0; v1 = v1; sum = sum }

unfoldable pub decode_round : List ℕ → Block → Block
decode_round k b =
    let v1 = sub32 b.v1 (mix k b.v0 b.sum (bit_and (b.sum >>> 11) 3)) in
    let sum = sub32 b.sum delta in
    let v0 = sub32 b.v0 (mix k v1 sum (bit_and sum 3)) in record { v0 = v0; v1 = v1; sum = sum }

-- for(i = 0; i < n; ++i)
unfoldable pub repeat : ℕ → (Block → Block) → Block → Block
repeat zero f b = b
repeat (suc n) f b = repeat n f (f b)

-- The two words at `data` and `data + 4`.
unfoldable pub load_words : List ℕ → Option (ℕ × ℕ)
load_words p = decode_u32_le p >>= λ v0. decode_u32_le (drop 4 p) >>= λ v1. some (v0, v1)

unfoldable pub store_words : List ℕ → ℕ → ℕ → Option (List ℕ)
store_words p v0 v1 =
    encode_u32_le p v0 >>= λ q. encode_u32_le (drop 4 q) v1 >>= λ r. some (take 4 q ++ r)

-- One iteration of the outer loop: the block at the front of `p`.
unfoldable pub encode_block : List ℕ → List ℕ → Option (List ℕ)
encode_block k p = load_words p >>= λ w.
    let b = repeat 32 (encode_round k) (record { v0 = w.0; v1 = w.1; sum = 0 }) in
    store_words p b.v0 b.v1

unfoldable pub decode_block : List ℕ → List ℕ → Option (List ℕ)
decode_block k p = load_words p >>= λ w.
    let b = repeat 32 (decode_round k) (record { v0 = w.0; v1 = w.1; sum = 0xC6EF3720 }) in
    store_words p b.v0 b.v1

-- `while(len > 0)`: eight bytes at a time; `len -= 8` wraps, and a block that the buffer does not
-- hold is an access outside it.
unfoldable pub xtea_encode : List ℕ → List ℕ → ℕ → Option (List ℕ)
xtea_encode k (b0 ∷ b1 ∷ b2 ∷ b3 ∷ b4 ∷ b5 ∷ b6 ∷ b7 ∷ p) len =
    let rest = xtea_encode k p (sub64 len 8) in
    if len == 0
    then some (b0 ∷ b1 ∷ b2 ∷ b3 ∷ b4 ∷ b5 ∷ b6 ∷ b7 ∷ p)
    else (encode_block k (b0 ∷ b1 ∷ b2 ∷ b3 ∷ b4 ∷ b5 ∷ b6 ∷ b7 ∷ []) >>= λ q.
        rest >>= λ r. some (q ++ r))
xtea_encode k p len = if len == 0 then some p else none

unfoldable pub xtea_decode : List ℕ → List ℕ → ℕ → Option (List ℕ)
xtea_decode k (b0 ∷ b1 ∷ b2 ∷ b3 ∷ b4 ∷ b5 ∷ b6 ∷ b7 ∷ p) len =
    let rest = xtea_decode k p (sub64 len 8) in
    if len == 0
    then some (b0 ∷ b1 ∷ b2 ∷ b3 ∷ b4 ∷ b5 ∷ b6 ∷ b7 ∷ p)
    else (decode_block k (b0 ∷ b1 ∷ b2 ∷ b3 ∷ b4 ∷ b5 ∷ b6 ∷ b7 ∷ []) >>= λ q.
        rest >>= λ r. some (q ++ r))
xtea_decode k p len = if len == 0 then some p else none
