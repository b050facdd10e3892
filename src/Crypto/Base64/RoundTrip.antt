-- ===== src/Crypto/Base64/RoundTrip.antt =====
-- src/crypto/base64.c: what `base64_encode` writes is what `base64_decode` reads.
use kaplarc.Base.{
  ℕ, zero, suc, ◌+◌, ◌*◌, ◌/◌, ◌%◌, ◌^◌, ◌<◌, ◌≡◌, arith, refl, true, false, some, List, [], ◌∷◌,
  ◌<<<◌, ◌>>>◌, bit_and, bit_or, ne→==_false, length, All,
}
use kaplarc.Base.Bits.{and_ones_mod, or_disjoint}
use kaplarc.Crypto.Base64.{
  base64, encode_rest, encode_groups, base64_encode, bad, byte0, byte1, byte2, decode_rest,
  decode_groups, base64_decode,
}
use kaplarc.Crypto.Base64.Tables.{decode64-base64}

-- The indices, as arithmetic.
index0_lt : (p0 : ℕ) → p0 < 256 → p0 >>> 2 < 64
index0_lt p0 h = omega arith

index1 : (p0 p1 : ℕ) → ℕ
index1 p0 p1 = p0 % 4 * 16 + p1 / 16 % 16

index2 : (p1 p2 : ℕ) → ℕ
index2 p1 p2 = p1 % 16 * 4 + p2 / 64 % 4

index1_lem : (p0 p1 : ℕ) → bit_or (bit_and p0 0x03 <<< 4) (bit_and (p1 >>> 4) 0x0F) ≡ index1 p0 p1
unfolding index1
index1_lem p0 p1 = ground (
  arith,
  and_ones_mod 2 p0,
  and_ones_mod 4 (p1 / 2 ^ 4),
  or_disjoint 4 (p0 % 4) (p1 / 16 % 16) (omega arith),
)

index1_last : (p0 : ℕ) → bit_and p0 0x03 <<< 4 ≡ index1 p0 0
unfolding index1
index1_last p0 = omega (arith, and_ones_mod 2 p0)

index2_lem : (p1 p2 : ℕ) → bit_or (bit_and p1 0x0F <<< 2) (bit_and (p2 >>> 6) 0x03) ≡ index2 p1 p2
unfolding index2
index2_lem p1 p2 = ground (
  arith,
  and_ones_mod 4 p1,
  and_ones_mod 2 (p2 / 2 ^ 6),
  or_disjoint 2 (p1 % 16) (p2 / 64 % 4) (omega arith),
)

index2_last : (p1 : ℕ) → bit_and p1 0x0F <<< 2 ≡ index2 p1 0
unfolding index2
index2_last p1 = omega (arith, and_ones_mod 4 p1)

index3_lem : (p2 : ℕ) → bit_and p2 0x3F ≡ p2 % 64
index3_lem p2 = and_ones_mod 6 p2

index1_lt : (p0 p1 : ℕ) → index1 p0 p1 < 64
unfolding index1
index1_lt p0 p1 = omega arith

index2_lt : (p1 p2 : ℕ) → index2 p1 p2 < 64
unfolding index2
index2_lt p1 p2 = omega arith

-- The bytes that the decoder puts together again.
byte0_lem : (p0 p1 : ℕ) → p0 < 256 → byte0 (p0 >>> 2) (index1 p0 p1) ≡ p0
unfolding index1
byte0_lem p0 p1 h = ground (
  arith,
  and_ones_mod 2 (index1 p0 p1 / 2 ^ 4),
  or_disjoint 2 (p0 / 4) (index1 p0 p1 / 16 % 4) (omega arith),
)

byte1_lem : (p0 p1 p2 : ℕ) → p1 < 256 → byte1 (index1 p0 p1) (index2 p1 p2) ≡ p1
unfolding index1 index2
byte1_lem p0 p1 p2 h = ground (
  arith,
  and_ones_mod 4 (index1 p0 p1),
  and_ones_mod 4 (index2 p1 p2 / 2 ^ 2),
  or_disjoint 4 (index1 p0 p1 % 16) (index2 p1 p2 / 4 % 16) (omega arith),
)

byte2_lem : (p1 p2 : ℕ) → p2 < 256 → byte2 (index2 p1 p2) (p2 % 64) ≡ p2
unfolding index2
byte2_lem p1 p2 h =
    ground (
      arith,
      and_ones_mod 2 (index2 p1 p2),
      or_disjoint 6 (index2 p1 p2 % 4) (p2 % 64) (omega arith),
    )

good : (i : ℕ) → i < 64 → bad i ≡ false
good i h = ne→==_false i 0xFF (omega arith)

-- `n` whole groups and `r` bytes are written and read back.
abbrev Reads : ℕ → ℕ → List ℕ → Type 0
Reads n r p =
    (out : List ℕ) × (encode_groups n r p ≡ some out)
    × (decode_groups n r out ≡ some (true, p))
    × (length out ≡ (n * 3 + r) + n + (r + 2) / 3 + 1)

last_group : (r : ℕ) (p : List ℕ) → r < 3 → length p ≡ r → All (λ b. b < 256) p → Reads 0 r p
unfolding encode_groups decode_groups encode_rest decode_rest
last_group zero [] l e h = (0 ∷ [], refl, refl, refl)
last_group (suc zero) (p0 ∷ []) l e h = (
  base64 (p0 >>> 2) ∷ base64 (bit_and p0 0x03 <<< 4) ∷ 0 ∷ [],
  refl,
  rw
      (
        index1_last p0,
        decode64-base64 (p0 >>> 2) (index0_lt p0 h.0),
        decode64-base64 (index1 p0 0) (index1_lt p0 0),
        good (p0 >>> 2) (index0_lt p0 h.0),
        good (index1 p0 0) (index1_lt p0 0),
        byte0_lem p0 0 h.0,
      )
      refl,
  refl,
)
last_group (suc (suc zero)) (p0 ∷ p1 ∷ []) l e h = (
  base64 (p0 >>> 2)
      ∷ base64 (bit_or (bit_and p0 0x03 <<< 4) (bit_and (p1 >>> 4) 0x0F))
      ∷ base64 (bit_and p1 0x0F <<< 2)
      ∷ 0
      ∷ [],
  refl,
  rw
      (
        index1_lem p0 p1,
        index2_last p1,
        decode64-base64 (p0 >>> 2) (index0_lt p0 h.0),
        decode64-base64 (index1 p0 p1) (index1_lt p0 p1),
        decode64-base64 (index2 p1 0) (index2_lt p1 0),
        good (p0 >>> 2) (index0_lt p0 h.0),
        good (index1 p0 p1) (index1_lt p0 p1),
        good (index2 p1 0) (index2_lt p1 0),
        byte0_lem p0 p1 h.0,
        byte1_lem p0 p1 0 h.1.0,
      )
      refl,
  refl,
)
last_group r p l e h = absurd (omega arith)

groups_read :
    (n r : ℕ) (p : List ℕ) → r < 3 → length p ≡ n * 3 + r → All (λ b. b < 256) p → Reads n r p
unfolding encode_groups decode_groups
groups_read zero r p l e h = last_group r p l (omega arith) h
groups_read (suc n) r (p0 ∷ p1 ∷ p2 ∷ p) l e (h0, (h1, (h2, h))) =
    let (out, written, read, size) = groups_read n r p l (omega arith) h in
    (
      base64 (p0 >>> 2)
          ∷ base64 (bit_or (bit_and p0 0x03 <<< 4) (bit_and (p1 >>> 4) 0x0F))
          ∷ base64 (bit_or (bit_and p1 0x0F <<< 2) (bit_and (p2 >>> 6) 0x03))
          ∷ base64 (bit_and p2 0x3F)
          ∷ out,
      rw written refl,
      rw
          (
            index1_lem p0 p1,
            index2_lem p1 p2,
            index3_lem p2,
            decode64-base64 (p0 >>> 2) (index0_lt p0 h0),
            decode64-base64 (index1 p0 p1) (index1_lt p0 p1),
            decode64-base64 (index2 p1 p2) (index2_lt p1 p2),
            decode64-base64 (p2 % 64) (omega arith),
            good (p0 >>> 2) (index0_lt p0 h0),
            good (index1 p0 p1) (index1_lt p0 p1),
            good (index2 p1 p2) (index2_lt p1 p2),
            good (p2 % 64) (omega arith),
            read,
            byte0_lem p0 p1 h0,
            byte1_lem p0 p1 p2 h1,
            byte2_lem p1 p2 h2,
          )
          refl,
      omega arith,
    )
groups_read (suc n) r p l e h = absurd (omega arith)

-- Bytes are encoded into four characters for each three, and the rest, and a NUL; the decoder
-- accepts them and gives the bytes back.
pub base64_decode-base64_encode :
    (p : List ℕ)
    → All (λ b. b < 256) p
    → (out : List ℕ) × (base64_encode p (length p) ≡ some out)
      × (base64_decode (length p) out ≡ some (true, p))
      × (length out ≡ (length p * 4 + 2) / 3 + 1)
unfolding base64_encode base64_decode
base64_decode-base64_encode p h =
    let (out, written, read, size) =
      groups_read (length p / 3) (length p % 3) p (omega arith) (omega arith) h in
    (out, written, read, omega arith)
