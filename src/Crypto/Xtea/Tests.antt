-- ===== src/Crypto/Xtea/Tests.antt =====
-- src/crypto/xtea.c on one block of a buffer of nine bytes.
use kaplarc.Base.{ℕ, ◌<◌, ◌≡◌, arith, refl, some, List, [], ◌∷◌, length, All}
use kaplarc.Crypto.Xtea.{xtea_encode, xtea_decode}
use kaplarc.Crypto.Xtea.RoundTrip.{xtea_decode-xtea_encode}

abbrev key : List ℕ
key = 0xA56BABCD ∷ 0x00000000 ∷ 0xFFFFFFFF ∷ 0xABCDEF01 ∷ []

abbrev input : List ℕ
input = 1 ∷ 2 ∷ 3 ∷ 4 ∷ 5 ∷ 6 ∷ 7 ∷ 255 ∷ 9 ∷ []

input-bytes : All (λ b. b < 256) input
input-bytes = (
  omega arith,
  (
    omega arith,
    (
      omega arith,
      (omega arith, (omega arith, (omega arith, (omega arith, (omega arith, (omega arith, tt)))))),
    ),
  ),
)

xtea_decode-xtea_encode_example :
    (c : List ℕ) × (xtea_encode key input 8 ≡ some c)
    × (xtea_decode key c 8 ≡ some input)
    × (length c ≡ 9)
    × All (λ b. b < 256) c
xtea_decode-xtea_encode_example =
    xtea_decode-xtea_encode key input 8 input-bytes refl (omega arith) (omega arith)
