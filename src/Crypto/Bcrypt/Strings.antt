-- ===== src/Crypto/Bcrypt/Strings.antt =====
-- C strings of src/crypto/bcrypt.c: lengths, the header of a hash, and the comparison.
use kaplarc.Base.{
  ℕ, suc, ◌+◌, ◌/◌, ◌%◌, ◌≤◌, ◌<◌, ◌≡◌, refl, ap, ◌∙◌, Bool, true, some, List, [], ◌∷◌, ◌++◌, All,
  length, u32, bit_xor, arith, le→leb, ne→==_false,
}
use kaplarc.Base.Xor.{zero-xor, xor_swap, xor_self}
use kaplarc.Crypto.Bcrypt.{strlen, prefix, rounds_of, is_header, hash_sum, hash_cmp, char_diff}

-- A C string is its characters and a NUL, whatever stands after it.
pub strlen-append :
    (s tail : List ℕ) → All (λ c. 0 < c) s → strlen (s ++ (0 ∷ tail)) ≡ some (length s)
unfolding strlen
strlen-append [] tail h = refl
strlen-append (c ∷ s) tail h =
    rw (ne→==_false c 0 (λ e. omega (arith, e, h.0)), strlen-append s tail h.1) refl

-- The header that is printed is accepted, and the rounds are read back.
pub rounds_of-prefix :
    (logr : ℕ) (rest : List ℕ) → logr ≤ 31 → rounds_of (prefix b'b' logr ++ rest) ≡ logr
rounds_of-prefix logr rest h = omega arith

pub is_header-prefix :
    (logr : ℕ) (rest : List ℕ) → 4 ≤ logr → logr ≤ 31 → is_header (prefix b'b' logr ++ rest) ≡ true
unfolding is_header
is_header-prefix logr rest low high =
    rw
      (
        rounds_of-prefix logr rest high,
        le→leb 4 logr low,
        le→leb logr 31 high,
        le→leb 48 (48 + logr / 10) (omega arith),
        le→leb (48 + logr / 10) 57 (omega arith),
        le→leb 48 (48 + logr % 10) (omega arith),
        le→leb (48 + logr % 10) 57 (omega arith),
      )
      refl

pub prefix-positive : (logr : ℕ) → All (λ c. 0 < c) (prefix b'b' logr)
prefix-positive logr = omega arith

module _ (signed : Bool) where
  hash_sum-same : (s tail : List ℕ) → hash_sum signed (length s) (s ++ tail) (s ++ tail) 0 ≡ some 0
  unfolding hash_sum
  hash_sum-same [] tail = refl
  hash_sum-same (c ∷ s) tail = rw (xor_self c) (hash_sum-same s tail)

  -- A hash is equal to itself.
  pub hash_cmp-same :
      (s tail : List ℕ) → hash_cmp signed (s ++ tail) (s ++ tail) (length s) ≡ some true
  unfolding hash_cmp
  hash_cmp-same s tail = rw (hash_sum-same s tail) refl

pub xor_bits : (a m : ℕ) → bit_xor (bit_xor a m) a ≡ m
xor_bits a m = xor_swap a m a ∙ ap (λ x. bit_xor x m) (xor_self a) ∙ zero-xor m

-- One character, whose difference is known.
hash_sum-cons :
    (n a b d : ℕ) (h1 h2 : List ℕ) (res : ℕ)
    → bit_xor a b ≡ d
    → hash_sum true (suc n) (a ∷ h1) (b ∷ h2) res
      ≡ hash_sum true n h1 h2 (u32 (res + char_diff true d))
unfolding hash_sum
hash_sum-cons n a b d h1 h2 res e = ap (λ x. hash_sum true n h1 h2 (u32 (res + char_diff true x))) e

-- A part in front that is equal adds nothing.
hash_sum-front :
    (w s h1 h2 : List ℕ)
    → hash_sum true (length (s ++ w)) (s ++ h1) (s ++ h2) 0 ≡ hash_sum true (length w) h1 h2 0
hash_sum-front w [] h1 h2 = refl
hash_sum-front w (c ∷ s) h1 h2 =
    hash_sum-cons (length (s ++ w)) c c 0 (s ++ h1) (s ++ h2) 0 (xor_self c)
    ∙ hash_sum-front w s h1 h2

-- Where `char` is signed, differences by the bits 1 and 255 cancel.
pub hash_cmp-cancels :
    (front : List ℕ) (a b : ℕ) (s tail : List ℕ)
    → hash_cmp true
        (front ++ (bit_xor a 1 ∷ bit_xor b 255 ∷ (s ++ tail)))
        (front ++ (a ∷ b ∷ (s ++ tail)))
        (length (front ++ (a ∷ b ∷ s)))
      ≡ some true
unfolding hash_cmp
hash_cmp-cancels front a b s tail =
    let rest = s ++ tail in
    let sum =
      hash_sum-front (a ∷ b ∷ s) front (bit_xor a 1 ∷ bit_xor b 255 ∷ rest) (a ∷ b ∷ rest)
      ∙ hash_sum-cons (suc (length s)) (bit_xor a 1) a 1 (bit_xor b 255 ∷ rest) (b ∷ rest) 0
          (xor_bits a 1)
      ∙ hash_sum-cons (length s) (bit_xor b 255) b 255 rest rest 1 (xor_bits b 255)
      ∙ hash_sum-same true s tail in
    rw sum refl
