-- ===== src/Crypto/Blowfish/RoundTrip.antt =====
-- `decode_one` of src/crypto/blowfish.c undoes `encode_one`, for every key schedule.
use kaplarc.Base.{ℕ, zero, suc, ◌+◌, ◌*◌, ◌≡◌, refl, ap, ◌∙◌, bit_xor, get_or, arith}
use kaplarc.Base.Xor.{xor-xor, xor_around}
use kaplarc.Crypto.Blowfish.{
  Context, Pair, encode_round, decode_round, encode_rounds, decode_rounds, encode_one, decode_one,
}

-- The state of the decoder that stands for the state `d` of the encoder before round `i`.
abbrev crossed : Context → ℕ → Pair → Pair
crossed b i d = record { l = bit_xor d.r (get_or b.p (i + 1) 0); r = bit_xor d.l (get_or b.p i 0) }

-- A round takes the crossed state after a round of the encoder to the one before it.
decode_round-encode_round :
    (b : Context) (i : ℕ) (d : Pair)
    → decode_round b (i + 2) (crossed b (i + 2) (encode_round b i d)) ≡ crossed b i d
unfolding encode_round decode_round
decode_round-encode_round b i d = simp (xor-xor, xor_around)

decode_rounds-encode_rounds :
    (n : ℕ) (b : Context) (d : Pair)
    → decode_rounds b n (crossed b (2 * n) (encode_rounds b n d)) ≡ crossed b 0 d
unfolding encode_rounds decode_rounds
decode_rounds-encode_rounds zero b d = refl
decode_rounds-encode_rounds (suc n) b d =
    let next : 2 * suc n ≡ 2 * n + 2 = omega arith in
    ap
      (λ i.
        decode_rounds b n
          (decode_round b i (crossed b i (encode_round b (2 * n) (encode_rounds b n d)))))
      next
    ∙ ap (decode_rounds b n) (decode_round-encode_round b (2 * n) (encode_rounds b n d))
    ∙ decode_rounds-encode_rounds n b d

-- For every key schedule, and every pair of words, decoding undoes encoding.
pub decode_one-encode_one : (b : Context) (d : Pair) → decode_one b (encode_one b d) ≡ d
unfolding encode_one decode_one
decode_one-encode_one b d = rw (decode_rounds-encode_rounds 8 b d) (simp xor-xor)
