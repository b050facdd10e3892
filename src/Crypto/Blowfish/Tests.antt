-- ===== src/Crypto/Blowfish/Tests.antt =====
-- The theorems on src/crypto/blowfish.c at concrete inputs, and a run of one word.
use kaplarc.Base.{ℕ, List, length, ◌*◌, ◌≡◌, refl, some, [], ◌∷◌, replicate, arith}
use kaplarc.Crypto.Blowfish.{
  f, encode_round, encode_rounds, encode_one, decode_one, blowfish_init, cyclic_buffer_get_u32,
  cyclic_bytes, cycle, blowfish_ecb_encode, blowfish_ecb_decode, blowfish_ecb_encode_n, round_to_8,
}
use kaplarc.Crypto.Blowfish.RoundTrip.{decode_one-encode_one}
use kaplarc.Crypto.Blowfish.Bounds.{cyclic_buffer_get_u32_lem}
use kaplarc.Crypto.Blowfish.Modes.{Clear, clear, blowfish_ecb_lem}
use kaplarc.Crypto.Blowfish.Chaining.{blowfish_cbc_encode, blowfish_cbc_decode}
use kaplarc.Crypto.Blowfish.Chained.{blowfish_cbc_lem}

-- A schedule of zeros only swaps the words.
zeros :
    encode_one (record { p = replicate 18 0; s = [] }) (record { l = 1; r = 2 })
    ≡ record { l = 2; r = 1 }
unfolding encode_one encode_rounds encode_round f
zeros = refl

wraps : cyclic_buffer_get_u32 (1 ∷ 2 ∷ 3 ∷ []) 3 2 ≡ some (0x03010203, 0)
unfolding cyclic_buffer_get_u32 cyclic_bytes cycle
wraps = refl

decode_one-encode_one_example :
    decode_one blowfish_init (encode_one blowfish_init (record { l = 5; r = 6 }))
    ≡ record { l = 5; r = 6 }
decode_one-encode_one_example = decode_one-encode_one blowfish_init (record { l = 5; r = 6 })

cyclic_buffer_get_u32_lem_example :
    cyclic_buffer_get_u32 (1 ∷ 2 ∷ 3 ∷ []) 3 2 ≡ some (0x03010203, 0)
cyclic_buffer_get_u32_lem_example =
    cyclic_buffer_get_u32_lem (1 ∷ 2 ∷ 3 ∷ []) 3 (omega arith) (omega arith) (omega arith) 2
      (omega arith)

rounded_up : 8 * 2 ≡ round_to_8 13
unfolding round_to_8
rounded_up = refl

blowfish_ecb_lem_example :
    Clear (blowfish_ecb_encode blowfish_init (replicate 16 9) 13) 2 (replicate 16 9)
    × Clear (blowfish_ecb_decode blowfish_init (replicate 16 9) 13) 2 (replicate 16 9)
    × Clear (blowfish_ecb_encode_n blowfish_init 64 (replicate 16 9) 13) 2 (replicate 16 9)
blowfish_ecb_lem_example =
    blowfish_ecb_lem blowfish_init 64 2 13 (replicate 16 9) rounded_up (omega arith) (omega arith)
      (omega arith)

blowfish_cbc_lem_example :
    (coded : List ℕ) × (out : List ℕ) × (blowfish_cbc_encode blowfish_init
        (replicate 8 7)
        (replicate 16 9)
        13
      ≡ some coded)
    × (blowfish_cbc_decode blowfish_init (replicate 8 7) coded 13 ≡ some out)
    × (length out ≡ 16)
    × (clear 2 out ≡ replicate 8 9)
blowfish_cbc_lem_example =
    blowfish_cbc_lem blowfish_init 2 13 7 7 7 7 7 7 7 7 (replicate 16 9) rounded_up (omega arith)
      (omega arith)
