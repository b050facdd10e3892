-- ===== src/Crypto/Blowfish/Chaining.antt =====
-- The CBC loops of src/crypto/blowfish.c, in place over a byte buffer.
use kaplarc.Base.{
  ℕ, zero, suc, Option, none, some, List, [], ◌∷◌, ◌++◌, sub64, bit_xor, ◌==◌, ◌>>=◌, if◌then◌else◌,
}
use kaplarc.Crypto.Blowfish.{Context, encode_one, decode_one, code_block, round_to_8}

-- for(i = 0; i < n; ++i) data[i] ^= iv[i];
unfoldable pub xor_bytes : ℕ → List ℕ → List ℕ → Option (List ℕ)
xor_bytes zero p iv = some p
xor_bytes (suc n) (b ∷ p) (v ∷ iv) = xor_bytes n p iv >>= λ q. some (bit_xor b v ∷ q)
xor_bytes (suc n) p iv = none

-- The block becomes the `iv` of the next.
unfoldable pub cbc_encode_loop : Context → List ℕ → List ℕ → ℕ → Option (List ℕ)
cbc_encode_loop b iv (b0 ∷ b1 ∷ b2 ∷ b3 ∷ b4 ∷ b5 ∷ b6 ∷ b7 ∷ p) len =
    let first = xor_bytes 8 (b0 ∷ b1 ∷ b2 ∷ b3 ∷ b4 ∷ b5 ∷ b6 ∷ b7 ∷ []) iv >>= λ q.
    code_block (encode_one b) q in
    let coded = first >>= λ q. cbc_encode_loop b q p (sub64 len 8) >>= λ r. some (q ++ r) in
    if len == 0 then some (b0 ∷ b1 ∷ b2 ∷ b3 ∷ b4 ∷ b5 ∷ b6 ∷ b7 ∷ p) else coded
cbc_encode_loop b iv p len = if len == 0 then some p else none

-- The blocks are decoded from the last one on, each with the block before it, which is not decoded
-- yet, and the first one with `iv`: here the blocks that follow come first.
unfoldable pub cbc_decode_loop : Context → List ℕ → List ℕ → ℕ → Option (List ℕ)
cbc_decode_loop b prev (b0 ∷ b1 ∷ b2 ∷ b3 ∷ b4 ∷ b5 ∷ b6 ∷ b7 ∷ p) len =
    let block : List ℕ = b0 ∷ b1 ∷ b2 ∷ b3 ∷ b4 ∷ b5 ∷ b6 ∷ b7 ∷ [] in
    let rest = cbc_decode_loop b block p (sub64 len 8) in
    let coded = rest >>= λ r.
    code_block (decode_one b) block >>= λ q. xor_bytes 8 q prev >>= λ q'. some (q' ++ r) in
    if len == 0 then some (block ++ p) else coded
cbc_decode_loop b prev p len = if len == 0 then some p else none

unfoldable pub blowfish_cbc_encode : Context → List ℕ → List ℕ → ℕ → Option (List ℕ)
blowfish_cbc_encode b iv buffer len = cbc_encode_loop b iv buffer (round_to_8 len)

unfoldable pub blowfish_cbc_decode : Context → List ℕ → List ℕ → ℕ → Option (List ℕ)
blowfish_cbc_decode b iv buffer len = cbc_decode_loop b iv buffer (round_to_8 len)
