-- ===== src/Crypto/Base64/Tests.antt =====
-- src/crypto/base64.c on four bytes.
use kaplarc.Base.{ℕ, ◌≡◌, refl, arith, true, some, List, [], ◌∷◌, length}
use kaplarc.Crypto.Base64.{base64, base64_encode, encode_rest, base64_decode}
use kaplarc.Crypto.Base64.RoundTrip.{base64_decode-base64_encode}

abbrev bytes : List ℕ
bytes = 77 ∷ 97 ∷ 110 ∷ 255 ∷ []

-- "RUDs9u"
encoded : base64_encode bytes 4 ≡ some (82 ∷ 85 ∷ 68 ∷ 115 ∷ 57 ∷ 117 ∷ 0 ∷ [])
unfolding base64_encode encode_rest base64
encoded = refl

base64_decode-base64_encode_example :
    (out : List ℕ) × (base64_encode bytes 4 ≡ some out)
    × (base64_decode 4 out ≡ some (true, bytes))
    × (length out ≡ 7)
base64_decode-base64_encode_example =
    base64_decode-base64_encode bytes (omega arith, (omega arith, (omega arith, (omega arith, tt))))
