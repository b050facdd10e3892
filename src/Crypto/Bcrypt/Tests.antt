-- ===== src/Crypto/Bcrypt/Tests.antt =====
-- Runs of src/crypto/bcrypt.c on small strings, and the theorems at concrete inputs.
use kaplarc.Base.{
  ℕ, ◌≡◌, ◌≢◌, ◌++◌, bit_xor, refl, true, false, some, List, [], ◌∷◌, length, replicate, arith,
}
use kaplarc.Crypto.Bcrypt.{
  clamp_rounds, generate_hash, is_header, strlen, hash_sum, hash_cmp, bcrypt_newhash,
  bcrypt_checkpass,
}
use kaplarc.Crypto.Bcrypt.Tampered.{bcrypt_checkpass-tampered}
use kaplarc.Crypto.Bcrypt.RoundTrip.{IsPassword, bcrypt_checkpass-bcrypt_newhash}

rounds_are_clamped : (clamp_rounds 2 ≡ 4) × (clamp_rounds 10 ≡ 10) × (clamp_rounds 40 ≡ 31)
unfolding clamp_rounds
rounds_are_clamped = (refl, refl, refl)

header_is_read : is_header (36 ∷ 50 ∷ 98 ∷ 36 ∷ 49 ∷ 48 ∷ 36 ∷ []) ≡ true
unfolding is_header
header_is_read = refl

bad_version : is_header (36 ∷ 50 ∷ 99 ∷ 36 ∷ 49 ∷ 48 ∷ 36 ∷ []) ≡ false
unfolding is_header
bad_version = refl

short_salt : generate_hash (65 ∷ 0 ∷ []) (36 ∷ 50 ∷ 0 ∷ []) 62 ≡ some (false, [])
unfolding generate_hash strlen
short_salt = refl

different : hash_cmp true (1 ∷ 2 ∷ []) (1 ∷ 3 ∷ []) 2 ≡ some false
unfolding hash_cmp hash_sum
different = refl

secret : IsPassword (97 ∷ 98 ∷ 0 ∷ []) (97 ∷ 98 ∷ [])
secret = record { whole = refl; positive_chars = omega arith; bytes = omega arith }

bcrypt_checkpass-bcrypt_newhash_example :
    (hash : List ℕ) × (bcrypt_newhash (replicate 16 7) (97 ∷ 98 ∷ 0 ∷ []) 10 62 ≡ some (true, hash))
    × (bcrypt_checkpass true (97 ∷ 98 ∷ 0 ∷ []) hash ≡ some true)
    × (length hash ≡ 62)
bcrypt_checkpass-bcrypt_newhash_example =
    bcrypt_checkpass-bcrypt_newhash true (97 ∷ 98 ∷ 0 ∷ []) (97 ∷ 98 ∷ []) (replicate 16 7) 10
      secret refl (omega arith)

bcrypt_checkpass-tampered_example :
    (front : List ℕ) × (a : ℕ) × (b : ℕ) × (rest : List ℕ) × (length front ≡ 29)
    × (bcrypt_newhash (replicate 16 7) (97 ∷ 98 ∷ 0 ∷ []) 10 62
        ≡ some (true, front ++ (a ∷ b ∷ rest)))
    × (bcrypt_checkpass true (97 ∷ 98 ∷ 0 ∷ []) (front ++ (bit_xor a 1 ∷ bit_xor b 255 ∷ rest))
        ≡ some true)
    × (bit_xor a 1 ≢ a)
    × (bit_xor b 255 ≢ b)
bcrypt_checkpass-tampered_example =
    bcrypt_checkpass-tampered (97 ∷ 98 ∷ 0 ∷ []) (97 ∷ 98 ∷ []) (replicate 16 7) 10 secret refl
      (omega arith)
