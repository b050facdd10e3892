-- ===== src/Crypto/Blowfish/Modes.antt =====
-- The ECB loops of src/crypto/blowfish.c write both words of a block at its start.
use kaplarc.Base.{
  ℕ, zero, suc, ◌*◌, ◌^◌, ◌≤◌, ◌<◌, ◌≡◌, refl, ap, Option, some, List, [], false, ◌∷◌, length, All,
  arith, sub64, u8, ◌>>>◌, ◌==◌, ne→==_false,
}
use kaplarc.Codec.Portable.{decode_u32_be, encode_u32_be}
use kaplarc.Crypto.Blowfish.{
  Context, Pair, encode_one, decode_one, encode_times, load_pair, store_pair, code_block, ecb_loop,
  round_to_8, blowfish_ecb_encode, blowfish_ecb_decode, blowfish_ecb_encode_n,
}

-- The second words of the first `n` blocks, and what follows the blocks.
abbrev pub clear : ℕ → List ℕ → List ℕ
clear (suc n) (b0 ∷ b1 ∷ b2 ∷ b3 ∷ b4 ∷ b5 ∷ b6 ∷ b7 ∷ p) = b4 ∷ b5 ∷ b6 ∷ b7 ∷ clear n p
clear n p = p

-- A whole number of blocks is coded, at the same length, and leaves the second words as they were.
pub record Clear (r : Option (List ℕ)) (n : ℕ) (buffer : List ℕ) : Type 0 where
  pub out : List ℕ
  pub run : r ≡ some out
  pub same_length : length out ≡ length buffer
  pub same : clear n out ≡ clear n buffer
  pub bytes : All (λ x. x < 256) out

pub code_block_lem :
    (code : Pair → Pair) (b0 b1 b2 b3 b4 b5 b6 b7 : ℕ)
    → (r : ℕ) × (code_block code (b0 ∷ b1 ∷ b2 ∷ b3 ∷ b4 ∷ b5 ∷ b6 ∷ b7 ∷ [])
        ≡ some (u8 (r >>> 24) ∷ u8 (r >>> 16) ∷ u8 (r >>> 8) ∷ u8 r ∷ b4 ∷ b5 ∷ b6 ∷ b7 ∷ []))
unfolding code_block load_pair store_pair decode_u32_be encode_u32_be
code_block_lem code b0 b1 b2 b3 b4 b5 b6 b7 = (_, refl)

ecb_loop_end : (code : Pair → Pair) (p : List ℕ) → ecb_loop code p 0 ≡ some p
unfolding ecb_loop
ecb_loop_end code (b0 ∷ b1 ∷ b2 ∷ b3 ∷ b4 ∷ b5 ∷ b6 ∷ b7 ∷ p) = refl
ecb_loop_end code p = refl

ecb_loop-Clear :
    (code : Pair → Pair) (n : ℕ) (buffer : List ℕ)
    → 8 * n ≤ length buffer
    → 8 * n < 2 ^ 64
    → All (λ x. x < 256) buffer
    → Clear (ecb_loop code buffer (8 * n)) n buffer
unfolding ecb_loop
ecb_loop-Clear code zero buffer fits small bytes = record {
  out = buffer;
  run = ecb_loop_end code buffer;
  same_length = refl;
  same = refl;
  bytes = bytes;
}
ecb_loop-Clear code (suc n) (b0 ∷ b1 ∷ b2 ∷ b3 ∷ b4 ∷ b5 ∷ b6 ∷ b7 ∷ p) fits small bytes =
    let rest = ecb_loop-Clear code n p (omega arith) (omega arith) bytes.1.1.1.1.1.1.1.1 in
    let (w, first_run) = code_block_lem code b0 b1 b2 b3 b4 b5 b6 b7 in
    let less : sub64 (8 * suc n) 8 ≡ 8 * n = omega arith in
    let more : (8 * suc n == 0) ≡ false = ne→==_false (8 * suc n) 0 (λ e. omega (arith, e)) in
    record {
      out = u8 (w >>> 24) ∷ u8 (w >>> 16) ∷ u8 (w >>> 8) ∷ u8 w ∷ b4 ∷ b5 ∷ b6 ∷ b7 ∷ rest.out;
      run = rw (more, first_run, less, rest.run) refl;
      same_length = omega (arith, rest.same_length);
      same = ap (λ l. b4 ∷ b5 ∷ b6 ∷ b7 ∷ l) rest.same;
      bytes = (
        omega arith,
        (
          omega arith,
          (
            omega arith,
            (
              omega arith,
              (
                bytes.1.1.1.1.0,
                (bytes.1.1.1.1.1.0, (bytes.1.1.1.1.1.1.0, (bytes.1.1.1.1.1.1.1.0, rest.bytes))),
              ),
            ),
          ),
        ),
      );
    }
ecb_loop-Clear code (suc n) p fits small bytes = absurd (omega arith)

-- What each of the three ECB functions does to a buffer that holds the whole blocks of its length:
-- it ends, it keeps the length, and it leaves the second word of each block as it was, also where it
-- should be encoded or decoded, since both words are written at the start of the block.
pub blowfish_ecb_lem :
    (b : Context) (rounds n len : ℕ) (buffer : List ℕ)
    → 8 * n ≡ round_to_8 len
    → 8 * n ≤ length buffer
    → 8 * n < 2 ^ 64
    → All (λ x. x < 256) buffer
    → Clear (blowfish_ecb_encode b buffer len) n buffer
      × Clear (blowfish_ecb_decode b buffer len) n buffer
      × Clear (blowfish_ecb_encode_n b rounds buffer len) n buffer
unfolding blowfish_ecb_encode blowfish_ecb_decode blowfish_ecb_encode_n
blowfish_ecb_lem b rounds n len buffer e fits small bytes = rw (← e) (
  ecb_loop-Clear (encode_one b) n buffer fits small bytes,
  ecb_loop-Clear (decode_one b) n buffer fits small bytes,
  ecb_loop-Clear (encode_times b rounds) n buffer fits small bytes,
)
