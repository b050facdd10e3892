-- ===== src/Crypto/Bcrypt/Tampered.antt =====
-- A stored hash that src/crypto/bcrypt.c takes for another one.
use kaplarc.Base.{
  ℕ, zero, suc, ◌<◌, ◌≡◌, ◌≢◌, refl, ap, sym, subst, ◌∙◌, arith, true, some, List, [], ◌∷◌, ◌++◌,
  All, length, bit_xor,
}
use kaplarc.Base.Xor.{xor_self, xor-xor, zero-xor}
use kaplarc.Crypto.Base64.Text.{IsSymbol, symbols-positive}
use kaplarc.Crypto.Bcrypt.{prefix, clamp_rounds, hash_cmp, bcrypt_newhash, bcrypt_checkpass}
use kaplarc.Crypto.Bcrypt.Strings.{xor_bits, hash_cmp-cancels}
use kaplarc.Crypto.Bcrypt.RoundTrip.{IsPassword, NewHash, new_hash, bcrypt_checkpass-compares}

-- A mask that is neither zero nor the value leaves something of it, and changes it.
xor-positive : (a m : ℕ) → a ≢ m → 0 < bit_xor a m
xor-positive a m ne = positive (bit_xor a m) refl
  where
    positive : (x : ℕ) → bit_xor a m ≡ x → 0 < x
    positive zero e = absurd (ne (sym (xor-xor a m) ∙ ap (λ y. bit_xor y m) e ∙ zero-xor m))
    positive (suc x) e = omega arith

xor_ne : (a m : ℕ) → 0 < m → bit_xor a m ≢ a
xor_ne a m some_bits e =
    omega (arith, some_bits, sym (xor_bits a m) ∙ ap (λ y. bit_xor y a) e ∙ xor_self a)

-- Where `char` is signed, every new hash has one beside it that differs from it at the first two
-- characters behind the salt and is accepted for the same password.
pub bcrypt_checkpass-tampered :
    (pass chars random : List ℕ) (logr : ℕ)
    → IsPassword pass chars
    → length random ≡ 16
    → All (λ c. c < 256) random
    → (front : List ℕ) × (a : ℕ) × (b : ℕ) × (rest : List ℕ) × (length front ≡ 29)
      × (bcrypt_newhash random pass logr 62 ≡ some (true, front ++ (a ∷ b ∷ rest)))
      × (bcrypt_checkpass true pass (front ++ (bit_xor a 1 ∷ bit_xor b 255 ∷ rest)) ≡ some true)
      × (bit_xor a 1 ≢ a)
      × (bit_xor b 255 ≢ b)
bcrypt_checkpass-tampered pass chars random logr is size bytes =
    let h = new_hash pass chars random logr is size bytes in by_digits h h.htext refl
  where
    rounds : ℕ
    rounds = clamp_rounds logr

    by_digits :
        (h : NewHash pass chars random logr) (htext : List ℕ)
        → h.htext ≡ htext
        → (front : List ℕ) × (a : ℕ) × (b : ℕ) × (rest : List ℕ) × (length front ≡ 29)
          × (bcrypt_newhash random pass logr 62 ≡ some (true, front ++ (a ∷ b ∷ rest)))
          × (bcrypt_checkpass true pass (front ++ (bit_xor a 1 ∷ bit_xor b 255 ∷ rest)) ≡ some true)
          × (bit_xor a 1 ≢ a)
          × (bit_xor b 255 ≢ b)
    by_digits h [] e = absurd (omega (arith, h.size, ap length e))
    by_digits h (a ∷ []) e = absurd (omega (arith, h.size, ap length e))
    by_digits h (a ∷ b ∷ s) e =
        let front = prefix b'b' rounds ++ h.text in
        let symbols = subst (All IsSymbol) e h.symbols in
        let other = bit_xor a 1 ∷ bit_xor b 255 ∷ s in
        let shift : (more : List ℕ)
            → prefix b'b' rounds ++ (h.text ++ (more ++ (0 ∷ []))) ≡ front ++ (more ++ (0 ∷ [])) =
          λ more. refl in
        let compared : hash_cmp true (prefix b'b' rounds ++ (h.text ++ (other ++ (0 ∷ []))))
              (prefix b'b' rounds ++ (h.text ++ (h.htext ++ (0 ∷ []))))
              (length (prefix b'b' rounds ++ (h.text ++ h.htext)))
            ≡ some true =
          subst
            (λ t.
              hash_cmp true (prefix b'b' rounds ++ (h.text ++ (other ++ (0 ∷ []))))
                (prefix b'b' rounds ++ (h.text ++ (t ++ (0 ∷ []))))
                (length (prefix b'b' rounds ++ (h.text ++ t)))
              ≡ some true)
            (sym e) (hash_cmp-cancels front a b s (0 ∷ [])) in
        (
          front,
          a,
          b,
          s ++ (0 ∷ []),
          omega (arith, h.written.size, size),
          h.made ∙ ap (λ t. some (true, prefix b'b' rounds ++ (h.text ++ (t ++ (0 ∷ []))))) e,
          bcrypt_checkpass-compares pass chars random logr is size bytes true true h other
              (
                xor-positive a 1 (λ f. omega (arith, symbols.0, f)),
                (
                  xor-positive b 255 (λ f. omega (arith, symbols.1.0, f)),
                  symbols-positive s symbols.1.1,
                ),
              )
              (omega (arith, h.size, ap length e)) compared,
          xor_ne a 1 (omega arith),
          xor_ne b 255 (omega arith),
        )
