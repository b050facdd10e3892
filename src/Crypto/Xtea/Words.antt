-- ===== src/Crypto/Xtea/Words.antt =====
-- The eight bytes of a block and its two words.
use kaplarc.Base.{ℕ, ◌+◌, ◌*◌, ◌/◌, ◌%◌, ◌^◌, ◌<◌, ◌≡◌, refl, arith, some, List, [], ◌∷◌, All}
use kaplarc.Codec.Portable.{encode_u32_le}
use kaplarc.Codec.Portable.Digits.{decode_u32_le_digits}
use kaplarc.Crypto.Xtea.{load_words, store_words}

-- Two words as the eight bytes that hold them.
abbrev pub bytes_of : ℕ → ℕ → List ℕ
bytes_of v0 v1 =
    v0 % 256
    ∷ v0 / 2 ^ 8 % 256
    ∷ v0 / 2 ^ 16 % 256
    ∷ v0 / 2 ^ 24 % 256
    ∷ v1 % 256
    ∷ v1 / 2 ^ 8 % 256
    ∷ v1 / 2 ^ 16 % 256
    ∷ v1 / 2 ^ 24 % 256
    ∷ []

pub bytes_of-All : (v0 v1 : ℕ) → All (λ b. b < 256) (bytes_of v0 v1)
bytes_of-All v0 v1 = omega arith

pub store_words_bytes :
    (d0 d1 d2 d3 d4 d5 d6 d7 v0 v1 : ℕ)
    → store_words (d0 ∷ d1 ∷ d2 ∷ d3 ∷ d4 ∷ d5 ∷ d6 ∷ d7 ∷ []) v0 v1 ≡ some (bytes_of v0 v1)
unfolding store_words encode_u32_le
store_words_bytes d0 d1 d2 d3 d4 d5 d6 d7 v0 v1 = refl

pub load_words_digits :
    (d0 d1 d2 d3 d4 d5 d6 d7 : ℕ)
    → All (λ b. b < 256) (d0 ∷ d1 ∷ d2 ∷ d3 ∷ d4 ∷ d5 ∷ d6 ∷ d7 ∷ [])
    → load_words (d0 ∷ d1 ∷ d2 ∷ d3 ∷ d4 ∷ d5 ∷ d6 ∷ d7 ∷ [])
      ≡ some
          (d0 + d1 * 2 ^ 8 + d2 * 2 ^ 16 + d3 * 2 ^ 24, d4 + d5 * 2 ^ 8 + d6 * 2 ^ 16 + d7 * 2 ^ 24)
unfolding load_words
load_words_digits d0 d1 d2 d3 d4 d5 d6 d7 h = rw (
  decode_u32_le_digits d0 d1 d2 d3 (d4 ∷ d5 ∷ d6 ∷ d7 ∷ []) (omega arith),
  decode_u32_le_digits d4 d5 d6 d7 [] (omega arith),
)

pub load_words-bytes_of :
    (v0 v1 : ℕ) → v0 < 2 ^ 32 → v1 < 2 ^ 32 → load_words (bytes_of v0 v1) ≡ some (v0, v1)
load_words-bytes_of v0 v1 h0 h1 =
    rw (load_words_digits _ _ _ _ _ _ _ _ (bytes_of-All v0 v1)) (ground arith)

-- Every block of eight bytes holds two words.
pub bytes_of_digits :
    (d0 d1 d2 d3 d4 d5 d6 d7 : ℕ)
    → All (λ b. b < 256) (d0 ∷ d1 ∷ d2 ∷ d3 ∷ d4 ∷ d5 ∷ d6 ∷ d7 ∷ [])
    → bytes_of
        (d0 + d1 * 2 ^ 8 + d2 * 2 ^ 16 + d3 * 2 ^ 24)
        (d4 + d5 * 2 ^ 8 + d6 * 2 ^ 16 + d7 * 2 ^ 24)
      ≡ d0 ∷ d1 ∷ d2 ∷ d3 ∷ d4 ∷ d5 ∷ d6 ∷ d7 ∷ []
bytes_of_digits d0 d1 d2 d3 d4 d5 d6 d7 h = ground arith
