-- ===== src/Crypto/Blowfish/Chained.antt =====
-- What survives the CBC loops of src/crypto/blowfish.c: the second word of every block, which they
-- only xor.
use kaplarc.Base.{
  ℕ, zero, suc, ◌*◌, ◌^◌, ◌≤◌, ◌<◌, ◌≡◌, refl, ap, arith, some, List, [], ◌∷◌, length, sub64, u8,
  ◌>>>◌, bit_xor, false, ◌==◌, ne→==_false,
}
use kaplarc.Base.Xor.{xor-xor}
use kaplarc.Crypto.Blowfish.{Context, encode_one, decode_one, round_to_8}
use kaplarc.Crypto.Blowfish.Chaining.{
  xor_bytes, cbc_encode_loop, cbc_decode_loop, blowfish_cbc_encode, blowfish_cbc_decode,
}
use kaplarc.Crypto.Blowfish.Modes.{clear, code_block_lem}

-- The buffer is encoded and decoded again, and its second words are those that it had.
pub record Survives (b : Context) (iv : List ℕ) (n len : ℕ) (buffer : List ℕ) : Type 0 where
  pub coded : List ℕ
  pub out : List ℕ
  pub encoded : cbc_encode_loop b iv buffer len ≡ some coded
  pub decoded : cbc_decode_loop b iv coded len ≡ some out
  pub same_length : length out ≡ length buffer
  pub same : clear n out ≡ clear n buffer

cbc_encode_end : (b : Context) (iv p : List ℕ) → cbc_encode_loop b iv p 0 ≡ some p
unfolding cbc_encode_loop
cbc_encode_end b iv (b0 ∷ b1 ∷ b2 ∷ b3 ∷ b4 ∷ b5 ∷ b6 ∷ b7 ∷ p) = refl
cbc_encode_end b iv p = refl

cbc_decode_end : (b : Context) (iv p : List ℕ) → cbc_decode_loop b iv p 0 ≡ some p
unfolding cbc_decode_loop
cbc_decode_end b iv (b0 ∷ b1 ∷ b2 ∷ b3 ∷ b4 ∷ b5 ∷ b6 ∷ b7 ∷ p) = refl
cbc_decode_end b iv p = refl

-- For whole blocks in the buffer and an `iv` of eight bytes.
pub cbc_loops-Survives :
    (b : Context) (n v0 v1 v2 v3 v4 v5 v6 v7 : ℕ) (buffer : List ℕ)
    → 8 * n ≤ length buffer
    → 8 * n < 2 ^ 64
    → Survives b (v0 ∷ v1 ∷ v2 ∷ v3 ∷ v4 ∷ v5 ∷ v6 ∷ v7 ∷ []) n (8 * n) buffer
unfolding cbc_encode_loop cbc_decode_loop xor_bytes
cbc_loops-Survives b zero v0 v1 v2 v3 v4 v5 v6 v7 buffer fits small = record {
  coded = buffer;
  out = buffer;
  encoded = cbc_encode_end b _ buffer;
  decoded = cbc_decode_end b _ buffer;
  same_length = refl;
  same = refl;
}
cbc_loops-Survives b (suc n) v0 v1 v2 v3 v4 v5 v6 v7 (b0 ∷ b1 ∷ b2 ∷ b3 ∷ b4 ∷ b5 ∷ b6 ∷ b7 ∷ p)
      fits small =
    let (w, first) =
      code_block_lem (encode_one b) (bit_xor b0 v0) (bit_xor b1 v1) (bit_xor b2 v2) (bit_xor b3 v3)
        (bit_xor b4 v4) (bit_xor b5 v5) (bit_xor b6 v6) (bit_xor b7 v7) in
    let c0 = u8 (w >>> 24) in
    let c1 = u8 (w >>> 16) in
    let c2 = u8 (w >>> 8) in
    let c3 = u8 w in
    let c4 = bit_xor b4 v4 in
    let c5 = bit_xor b5 v5 in
    let c6 = bit_xor b6 v6 in
    let c7 = bit_xor b7 v7 in
    let (z, back) = code_block_lem (decode_one b) c0 c1 c2 c3 c4 c5 c6 c7 in
    let rest = cbc_loops-Survives b n c0 c1 c2 c3 c4 c5 c6 c7 p (omega arith) (omega arith) in
    let less : sub64 (8 * suc n) 8 ≡ 8 * n = omega arith in
    let more : (8 * suc n == 0) ≡ false = ne→==_false (8 * suc n) 0 (λ e. omega (arith, e)) in
    record {
      coded = c0 ∷ c1 ∷ c2 ∷ c3 ∷ c4 ∷ c5 ∷ c6 ∷ c7 ∷ rest.coded;
      out =
          bit_xor (u8 (z >>> 24)) v0
          ∷ bit_xor (u8 (z >>> 16)) v1
          ∷ bit_xor (u8 (z >>> 8)) v2
          ∷ bit_xor (u8 z) v3
          ∷ bit_xor c4 v4
          ∷ bit_xor c5 v5
          ∷ bit_xor c6 v6
          ∷ bit_xor c7 v7
          ∷ rest.out;
      encoded = rw (more, first, less, rest.encoded) refl;
      decoded = rw (more, less, rest.decoded, back) refl;
      same_length = omega (arith, rest.same_length);
      same =
          rw (xor-xor b4 v4, xor-xor b5 v5, xor-xor b6 v6, xor-xor b7 v7)
            (ap (λ l. b4 ∷ b5 ∷ b6 ∷ b7 ∷ l) rest.same);
    }
cbc_loops-Survives b (suc n) v0 v1 v2 v3 v4 v5 v6 v7 p fits small = absurd (omega arith)

-- Encoding a buffer that holds the whole blocks of its length, and decoding the result with the same
-- key and the same `iv` of eight bytes, both end, keep the length, and give back the second word of
-- every block.
pub blowfish_cbc_lem :
    (b : Context) (n len v0 v1 v2 v3 v4 v5 v6 v7 : ℕ) (buffer : List ℕ)
    → 8 * n ≡ round_to_8 len
    → 8 * n ≤ length buffer
    → 8 * n < 2 ^ 64
    → let iv = v0 ∷ v1 ∷ v2 ∷ v3 ∷ v4 ∷ v5 ∷ v6 ∷ v7 ∷ [] in
      (coded : List ℕ) × (out : List ℕ) × (blowfish_cbc_encode b iv buffer len ≡ some coded)
      × (blowfish_cbc_decode b iv coded len ≡ some out)
      × (length out ≡ length buffer)
      × (clear n out ≡ clear n buffer)
unfolding blowfish_cbc_encode blowfish_cbc_decode
blowfish_cbc_lem b n len v0 v1 v2 v3 v4 v5 v6 v7 buffer e fits small =
    let s = cbc_loops-Survives b n v0 v1 v2 v3 v4 v5 v6 v7 buffer fits small in
    (s.coded, s.out, rw (← e) s.encoded, rw (← e) s.decoded, s.same_length, s.same)
