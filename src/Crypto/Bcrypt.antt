-- ===== src/Crypto/Bcrypt.antt =====
-- src/crypto/bcrypt.c: salted password hashes. A C string is the list of its bytes with the NUL; what
-- the random generator wrote, and whether `char` is signed on the target, are arguments. `none` is an access outside a buffer.
pub mod Strings
pub mod RoundTrip
pub mod Tampered
mod Tests
use kaplarc.Base.{
  ℕ, zero, suc, ◌+◌, ◌-◌, ◌*◌, ◌/◌, ◌%◌, ◌^◌, Bool, true, false, ◌&&◌, ◌||◌, not, Option, none,
  some, List, [], ◌∷◌, ◌++◌, take, drop, get_or, u8, u32, min, ltb, leb, ◌==◌, bit_xor,
  if◌then◌else◌, ◌>>=◌,
}
use kaplarc.Crypto.Base64.{base64_encode, base64_decode}
use kaplarc.Crypto.Blowfish.{
  Context, blowfish_init, blowfish_expandkey, blowfish_expandkey1, blowfish_ecb_encode_n,
}

abbrev pub salt_len : ℕ
salt_len = 16

abbrev pub hash_len : ℕ
hash_len = 24

abbrev pub salt_strlen : ℕ
salt_strlen = 30

abbrev pub hash_strlen : ℕ
hash_strlen = 62

-- `strlen` of the C library: `none` where there is no NUL.
unfoldable pub strlen : List ℕ → Option ℕ
strlen [] = none
strlen (c ∷ s) = let rest = strlen s in if c == 0 then some 0 else (rest >>= λ n. some (suc n))

-- "$2%c$%2.2u$", without the NUL, for a number of two digits.
abbrev pub prefix : ℕ → ℕ → List ℕ
prefix minor logr = 36 ∷ 50 ∷ minor ∷ 36 ∷ (48 + logr / 10) ∷ (48 + logr % 10) ∷ 36 ∷ []

unfoldable pub clamp_rounds : ℕ → ℕ
clamp_rounds logr = if ltb logr 4 then 4 else if ltb 31 logr then 31 else logr

-- The answer, and the text that is written.
unfoldable pub generate_salt : List ℕ → ℕ → ℕ → Option (Bool × List ℕ)
generate_salt random logr saltlen =
    if ltb saltlen salt_strlen
    then some (false, [])
    else (base64_encode random salt_len >>= λ e. some (true, prefix b'b' (clamp_rounds logr) ++ e))

abbrev pub isdigit : ℕ → Bool
isdigit c = leb 48 c && leb c 57

-- `(salt[4] - '0') * 10 + (salt[5] - '0')`
abbrev pub rounds_of : List ℕ → ℕ
rounds_of salt = u8 ((get_or salt 4 0 - 48) * 10 + (get_or salt 5 0 - 48))

-- The tests of the salt string that come before it is decoded.
unfoldable pub is_header : List ℕ → Bool
is_header salt =
    (get_or salt 0 0 == 36)
    && (get_or salt 1 0 == 50)
    && ((get_or salt 2 0 == b'b') || (get_or salt 2 0 == b'a'))
    && (get_or salt 3 0 == 36)
    && (get_or salt 6 0 == 36)
    && isdigit (get_or salt 4 0)
    && isdigit (get_or salt 5 0)
    && leb 4 (rounds_of salt)
    && leb (rounds_of salt) 31

-- The length of the key with its NUL; the version `b` reads 72 bytes at most.
unfoldable pub key_length : ℕ → ℕ → ℕ
key_length minor n = if minor == b'b' then min (n + 1) 72 else n + 1

-- `for(i = 0; i < rounds; i++)`
unfoldable pub stretch : ℕ → List ℕ → ℕ → List ℕ → Context → Option Context
stretch zero key keylen salt b = some b
stretch (suc n) key keylen salt b = blowfish_expandkey b key keylen >>= λ c.
    blowfish_expandkey c salt salt_len >>= λ d. stretch n key keylen salt d

-- "OrpheanBeholderScryDoubt"
abbrev pub plain_text : List ℕ
plain_text =
    79 ∷ 114 ∷ 112 ∷ 104 ∷ 101 ∷ 97 ∷ 110 ∷ 66 ∷ 101 ∷ 104 ∷ 111 ∷ 108 ∷ 100 ∷ 101 ∷ 114 ∷ 83 ∷ 99
    ∷ 114 ∷ 121 ∷ 68 ∷ 111 ∷ 117 ∷ 98 ∷ 116 ∷ []

-- From the key set-up to the end: the text of the hash, whose salt part loses its NUL to what
-- follows.
unfoldable pub hash_text : List ℕ → ℕ → List ℕ → ℕ → ℕ → Option (List ℕ)
hash_text key keylen csalt minor logr =
    blowfish_expandkey1 blowfish_init key keylen csalt salt_len >>= λ b.
    stretch (2 ^ logr) key keylen csalt b >>= λ c.
    blowfish_ecb_encode_n c 64 plain_text hash_len >>= λ ctext.
    base64_encode csalt salt_len >>= λ s.
    base64_encode ctext hash_len >>= λ h. some (prefix minor logr ++ (take 22 s ++ h))

abbrev pub with_salt : Bool × List ℕ → (List ℕ → Option (List ℕ)) → Option (Bool × List ℕ)
with_salt (false, csalt) k = some (false, [])
with_salt (true, csalt) k = k csalt >>= λ h. some (true, h)

unfoldable pub generate_hash : List ℕ → List ℕ → ℕ → Option (Bool × List ℕ)
generate_hash key salt hashlen = strlen salt >>= λ n. strlen key >>= λ m.
    if ltb (n + 1) salt_strlen || ltb hashlen hash_strlen || not (is_header salt)
    then some (false, [])
    else (base64_decode salt_len (drop 7 salt) >>= λ d. with_salt d (λ csalt.
        hash_text key (key_length (get_or salt 2 0) m) csalt (get_or salt 2 0) (rounds_of salt)))

-- The xor of two `char`s, as an `int` modulo 2 ^ 32. C leaves open whether a `char` is signed: the
-- argument `signed` says what it is on the target.
abbrev pub char_diff : Bool → ℕ → ℕ
char_diff signed x = if ltb x 128 || not signed then x else 2 ^ 32 - 256 + x

unfoldable pub hash_sum : Bool → ℕ → List ℕ → List ℕ → ℕ → Option ℕ
hash_sum signed zero h1 h2 res = some res
hash_sum signed (suc n) (a ∷ h1) (b ∷ h2) res =
    hash_sum signed n h1 h2 (u32 (res + char_diff signed (bit_xor a b)))
hash_sum signed (suc n) h1 h2 res = none

unfoldable pub hash_cmp : Bool → List ℕ → List ℕ → ℕ → Option Bool
hash_cmp signed h1 h2 len = hash_sum signed len h1 h2 0 >>= λ res. some (res == 0)

abbrev pub if_made : Bool × List ℕ → (List ℕ → Option (Bool × List ℕ)) → Option (Bool × List ℕ)
if_made (false, s) k = some (false, [])
if_made (true, s) k = k s

unfoldable pub bcrypt_newhash : List ℕ → List ℕ → ℕ → ℕ → Option (Bool × List ℕ)
bcrypt_newhash random pass logr hashlen = generate_salt random logr salt_strlen >>= λ made.
    if_made made (λ salt. generate_hash pass salt hashlen)

unfoldable pub same_hash : Bool → List ℕ → List ℕ → Option Bool
same_hash signed hash test_hash = strlen hash >>= λ n.
    strlen test_hash >>= λ m. if n == m then hash_cmp signed hash test_hash n else some false

abbrev pub if_tested : Bool × List ℕ → (List ℕ → Option Bool) → Option Bool
if_tested (false, h) k = some false
if_tested (true, h) k = k h

unfoldable pub bcrypt_checkpass : Bool → List ℕ → List ℕ → Option Bool
bcrypt_checkpass signed pass hash = generate_hash pass hash hash_strlen >>= λ made.
    if_tested made (λ test_hash. same_hash signed hash test_hash)
