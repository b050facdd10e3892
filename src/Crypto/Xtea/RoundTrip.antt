-- ===== src/Crypto/Xtea/RoundTrip.antt =====
-- Decoding a buffer that was encoded under the same key gives the buffer back.
use kaplarc.Base.{
  ℕ, ◌+◌, ◌*◌, ◌%◌, ◌^◌, ◌≤◌, ◌<◌, ◌≡◌, refl, ap, sym, ◌∙◌, arith, some, List, ◌∷◌, ◌++◌, All,
  All-append, length, sub64, ◌==◌, false, ◌≢◌, ℕ_discrete, ne→==_false, subst,
}
use kaplarc.Crypto.Xtea.{Block, encode_round, decode_round, repeat}
use kaplarc.Crypto.Xtea.{encode_block, decode_block, xtea_encode, xtea_decode}
use kaplarc.Crypto.Xtea.Rounds.{
  IsWords, encode_rounds-IsWords, decode_rounds-encode_rounds, sum-encode_rounds,
}
use kaplarc.Crypto.Xtea.Words.{bytes_of, bytes_of-All, store_words_bytes}
use kaplarc.Crypto.Xtea.Words.{load_words-bytes_of, bytes_of_digits}

-- The words after the 32 rounds of an encoding.
abbrev encoded : List ℕ → ℕ → ℕ → Block
encoded k v0 v1 = repeat 32 (encode_round k) (record { v0 = v0; v1 = v1; sum = 0 })

encode_block_bytes :
    (k : List ℕ) (v0 v1 : ℕ)
    → v0 < 2 ^ 32
    → v1 < 2 ^ 32
    → encode_block k (bytes_of v0 v1) ≡ some (bytes_of (encoded k v0 v1).v0 (encoded k v0 v1).v1)
unfolding encode_block
encode_block_bytes k v0 v1 h0 h1 =
    rw (load_words-bytes_of v0 v1 h0 h1) (store_words_bytes _ _ _ _ _ _ _ _ _ _)

encoded-IsWords : (k : List ℕ) (v0 v1 : ℕ) → v0 < 2 ^ 32 → v1 < 2 ^ 32 → IsWords (encoded k v0 v1)
encoded-IsWords k v0 v1 h0 h1 = encode_rounds-IsWords 32 k _ (omega arith)

-- The schedule that decoding starts from is where encoding ends, so its rounds lead back.
decoded_lem :
    (k : List ℕ) (v0 v1 : ℕ)
    → v0 < 2 ^ 32
    → v1 < 2 ^ 32
    → repeat 32
        (decode_round k)
        (record { v0 = (encoded k v0 v1).v0; v1 = (encoded k v0 v1).v1; sum = 0xC6EF3720 })
      ≡ record { v0 = v0; v1 = v1; sum = 0 }
decoded_lem k v0 v1 h0 h1 =
    ap (λ (s : ℕ). repeat 32 (decode_round k) (record (encoded k v0 v1) { sum = s }))
      (sym (sum-encode_rounds 32 k (record { v0 = v0; v1 = v1; sum = 0 }) (omega arith)))
    ∙ decode_rounds-encode_rounds 32 k (record { v0 = v0; v1 = v1; sum = 0 }) (omega arith)

decode_block-encoded :
    (k : List ℕ) (v0 v1 : ℕ)
    → v0 < 2 ^ 32
    → v1 < 2 ^ 32
    → decode_block k (bytes_of (encoded k v0 v1).v0 (encoded k v0 v1).v1) ≡ some (bytes_of v0 v1)
unfolding decode_block
decode_block-encoded k v0 v1 h0 h1 =
    let w = encoded-IsWords k v0 v1 h0 h1 in
    rw (load_words-bytes_of (encoded k v0 v1).v0 (encoded k v0 v1).v1 w.v0_lt w.v1_lt)
      (rw (decoded_lem k v0 v1 h0 h1) (store_words_bytes _ _ _ _ _ _ _ _ _ _))

-- A buffer of whole blocks, by its words.
xtea_decode-bytes :
    (k p q : List ℕ) (v0 v1 len : ℕ)
    → xtea_decode k q (sub64 len 8) ≡ some p
    → (len == 0) ≡ false
    → v0 < 2 ^ 32
    → v1 < 2 ^ 32
    → xtea_decode k (bytes_of (encoded k v0 v1).v0 (encoded k v0 v1).v1 ++ q) len
      ≡ some (bytes_of v0 v1 ++ p)
unfolding xtea_decode
xtea_decode-bytes k p q v0 v1 len ih nz h0 h1 = rw (nz, decode_block-encoded k v0 v1 h0 h1, ih)

xtea_encode-bytes :
    (k p q : List ℕ) (v0 v1 len : ℕ)
    → xtea_encode k p (sub64 len 8) ≡ some q
    → (len == 0) ≡ false
    → v0 < 2 ^ 32
    → v1 < 2 ^ 32
    → xtea_encode k (bytes_of v0 v1 ++ p) len
      ≡ some (bytes_of (encoded k v0 v1).v0 (encoded k v0 v1).v1 ++ q)
unfolding xtea_encode
xtea_encode-bytes k p q v0 v1 len ih nz h0 h1 = rw (nz, encode_block_bytes k v0 v1 h0 h1, ih)

xtea_encode-zero : (k p : List ℕ) → xtea_encode k p 0 ≡ some p
unfolding xtea_encode
xtea_encode-zero k (b0 ∷ b1 ∷ b2 ∷ b3 ∷ b4 ∷ b5 ∷ b6 ∷ b7 ∷ p) = refl
xtea_encode-zero k _ = refl

xtea_decode-zero : (k p : List ℕ) → xtea_decode k p 0 ≡ some p
unfolding xtea_decode
xtea_decode-zero k (b0 ∷ b1 ∷ b2 ∷ b3 ∷ b4 ∷ b5 ∷ b6 ∷ b7 ∷ p) = refl
xtea_decode-zero k _ = refl

-- Some buffer is the encoding of `p`, and decodes to `p`.
abbrev Undone : List ℕ → List ℕ → ℕ → Type 0
Undone k p len =
    (c : List ℕ) × (xtea_encode k p len ≡ some c)
    × (xtea_decode k c len ≡ some p)
    × (length c ≡ length p)
    × All (λ b. b < 256) c

no_blocks : (k p : List ℕ) (len : ℕ) → All (λ b. b < 256) p → len ≡ 0 → Undone k p len
no_blocks k p len bytes e = (
  p,
  ap (xtea_encode k p) e ∙ xtea_encode-zero k p,
  ap (xtea_decode k p) e ∙ xtea_decode-zero k p,
  refl,
  bytes,
)

one_more_block :
    (k p : List ℕ) (v0 v1 len : ℕ)
    → Undone k p (sub64 len 8)
    → len ≢ 0
    → v0 < 2 ^ 32
    → v1 < 2 ^ 32
    → Undone k (bytes_of v0 v1 ++ p) len
one_more_block k p v0 v1 len (q, enc, dec, size, bytes) nz h0 h1 = (
  bytes_of (encoded k v0 v1).v0 (encoded k v0 v1).v1 ++ q,
  xtea_encode-bytes k p q v0 v1 len enc (ne→==_false len 0 nz) h0 h1,
  xtea_decode-bytes k p q v0 v1 len dec (ne→==_false len 0 nz) h0 h1,
  omega arith,
  All-append _ (bytes_of (encoded k v0 v1).v0 (encoded k v0 v1).v1) q (bytes_of-All _ _) bytes,
)

-- Any whole number of blocks, of less than 2 ^ 64 bytes, inside a buffer of bytes is encoded, at
-- the same length, to bytes, and decoding the result under the same key gives
-- the buffer back.
pub xtea_decode-xtea_encode :
    (k p : List ℕ) (len : ℕ)
    → All (λ b. b < 256) p
    → len % 8 ≡ 0
    → len ≤ length p
    → len < 2 ^ 64
    → (c : List ℕ) × (xtea_encode k p len ≡ some c)
      × (xtea_decode k c len ≡ some p)
      × (length c ≡ length p)
      × All (λ b. b < 256) c
xtea_decode-xtea_encode k (d0 ∷ d1 ∷ d2 ∷ d3 ∷ d4 ∷ d5 ∷ d6 ∷ d7 ∷ p) len bytes whole fits small =
    let rest = xtea_decode-xtea_encode k p (sub64 len 8) bytes.1.1.1.1.1.1.1.1 in
    elim (ℕ_discrete len 0) [
      | yes e ↦ no_blocks k (d0 ∷ d1 ∷ d2 ∷ d3 ∷ d4 ∷ d5 ∷ d6 ∷ d7 ∷ p) len bytes e
      | no nz ↦
          subst (λ d. Undone k (d ++ p) len) (bytes_of_digits d0 d1 d2 d3 d4 d5 d6 d7 (omega arith))
            (one_more_block k p (d0 + d1 * 2 ^ 8 + d2 * 2 ^ 16 + d3 * 2 ^ 24)
              (d4 + d5 * 2 ^ 8 + d6 * 2 ^ 16 + d7 * 2 ^ 24) len
              (rest (omega arith) (omega arith) (omega arith)) nz (omega arith) (omega arith))
    ]
xtea_decode-xtea_encode k p len bytes whole fits small = no_blocks k p len bytes (omega arith)
