-- ===== src/Crypto/Bcrypt/RoundTrip.antt =====
-- A hash that `bcrypt_newhash` of src/crypto/bcrypt.c makes is accepted by `bcrypt_checkpass`.
use kaplarc.Base.{
  ℕ, zero, suc, ◌+◌, ◌*◌, ◌^◌, ◌≤◌, ◌<◌, ◌≡◌, refl, ap, sym, subst, ◌∙◌, Bool, true, false, some,
  List, [], ◌∷◌, ◌++◌, All, All-append, length, length-append, take, ltb, arith, ==_refl,
  le→ltb_false,
}
use mathlib.Core.List.{append_assoc}
use kaplarc.Crypto.Base64.{base64_encode, base64_decode}
use kaplarc.Crypto.Base64.Text.{IsSymbol, IsText, encoded-IsText, symbols-positive}
use kaplarc.Crypto.Blowfish.{Context, blowfish_init, round_to_8}
use kaplarc.Crypto.Blowfish.Modes.{blowfish_ecb_lem}
use kaplarc.Crypto.Blowfish.Total.{IsKey, blowfish_expandkey-total, blowfish_expandkey1-total}
use kaplarc.Crypto.Bcrypt.{
  prefix, clamp_rounds, generate_salt, generate_hash, key_length, stretch, plain_text, hash_text,
  same_hash, hash_cmp, bcrypt_newhash, bcrypt_checkpass, strlen,
}
use kaplarc.Crypto.Bcrypt.Strings.{
  strlen-append, rounds_of-prefix, is_header-prefix, prefix-positive, hash_cmp-same,
}

-- The rounds that are used are in the range that is accepted.
clamp_rounds_bounds : (logr : ℕ) → (4 ≤ clamp_rounds logr) × (clamp_rounds logr ≤ 31)
unfolding clamp_rounds
clamp_rounds_bounds logr = ground arith

stretch-total :
    (n : ℕ) (key : List ℕ) (keylen : ℕ) (salt : List ℕ) (b : Context)
    → IsKey key keylen
    → IsKey salt 16
    → (c : Context) × (stretch n key keylen salt b ≡ some c)
unfolding stretch
stretch-total zero key keylen salt b is is' = (b, refl)
stretch-total (suc n) key keylen salt b is is' =
    let (c, run1) = blowfish_expandkey-total b key keylen is in
    let (d, run2) = blowfish_expandkey-total c salt 16 is' in
    let (e, run3) = stretch-total n key keylen salt d is is' in (e, rw (run1, run2, run3) refl)

take_exact : (s tail : List ℕ) → take (length s) (s ++ tail) ≡ s
take_exact [] tail = refl
take_exact (c ∷ s) tail = ap (λ l. c ∷ l) (take_exact s tail)

rounded : 8 * 3 ≡ round_to_8 24
unfolding round_to_8
rounded = refl

take_text : (s tail : List ℕ) → length s ≡ 22 → take 22 (s ++ tail) ≡ s
take_text s tail h = rw (← h) (take_exact s tail)

module _ (key : List ℕ) (keylen : ℕ) (csalt text : List ℕ) (logr : ℕ) (is : IsKey key keylen)
    (salt_is : IsKey csalt 16) (size : length csalt ≡ 16) (written : IsText csalt text) where
  -- The hash is always made: the header, the salt's text, and a text for the coded words.
  hash_text-total :
      (htext : List ℕ) × (hash_text key keylen csalt b'b' logr
        ≡ some (prefix b'b' logr ++ (text ++ (htext ++ (0 ∷ [])))))
      × All IsSymbol htext
      × (length htext ≡ 32)
  unfolding hash_text
  hash_text-total =
      let (b, run1) = blowfish_expandkey1-total blowfish_init key keylen csalt 16 is salt_is in
      let (c, run2) = stretch-total (2 ^ logr) key keylen csalt b is salt_is in
      let coded =
        (blowfish_ecb_lem c 64 3 24 plain_text rounded (omega arith) (omega arith)
          (omega arith)).2 in
      let (htext, made) = encoded-IsText coded.out coded.bytes in
      let w : base64_encode csalt 16 ≡ some (text ++ (0 ∷ [])) =
        subst (λ n. base64_encode csalt n ≡ some (text ++ (0 ∷ []))) size written.written in
      let v : base64_encode coded.out 24 ≡ some (htext ++ (0 ∷ [])) =
        subst (λ n. base64_encode coded.out n ≡ some (htext ++ (0 ∷ []))) coded.same_length
          made.written in
      let cut : take 22 (text ++ (0 ∷ [])) ≡ text =
        take_text text (0 ∷ []) (omega (arith, written.size, size)) in
      (
        htext,
        rw (run1, run2, coded.run, w, v, cut) refl,
        made.symbols,
        omega (arith, made.size, coded.same_length),
      )

-- A password: its characters and the NUL.
pub record IsPassword (pass chars : List ℕ) : Type 0 where
  pub whole : pass ≡ chars ++ (0 ∷ [])
  pub positive_chars : All (λ c. 0 < c) chars
  pub bytes : All (λ c. c < 256) pass

module _ (pass chars : List ℕ) (is : IsPassword pass chars) where
  strlen-pass : strlen pass ≡ some (length chars)
  strlen-pass = ap strlen is.whole ∙ strlen-append chars [] is.positive_chars

  key_length-IsKey : IsKey pass (key_length b'b' (length chars))
  unfolding key_length
  key_length-IsKey = record {
    bytes = is.bytes;
    some_bytes = ground arith;
    fits = ground (arith, ap length is.whole, length-append chars (0 ∷ []));
    short = ground arith;
  }

  -- A string with the header and the text of the salt ends at its NUL.
  strlen-text :
      (text more : List ℕ) (logr : ℕ)
      → All (λ c. 0 < c) text
      → All (λ c. 0 < c) more
      → strlen (prefix b'b' logr ++ (text ++ (more ++ (0 ∷ []))))
        ≡ some (length (prefix b'b' logr ++ (text ++ more)))
  strlen-text text more logr chars positive =
      let all = prefix b'b' logr ++ (text ++ more) in
      let joined : prefix b'b' logr ++ (text ++ (more ++ (0 ∷ []))) ≡ all ++ (0 ∷ []) =
        simp append_assoc in
      ap strlen joined
      ∙ strlen-append all [] (
          All-append (λ c. 0 < c) (prefix b'b' logr) (text ++ more) (prefix-positive logr)
            (All-append (λ c. 0 < c) text more chars positive))

  -- A hash is made from any string that starts with the header and the text of the salt.
  generate_hash-text :
      (csalt text more out : List ℕ) (logr : ℕ)
      → length csalt ≡ 16
      → IsText csalt text
      → All (λ c. 0 < c) more
      → 4 ≤ logr
      → logr ≤ 31
      → hash_text pass (key_length b'b' (length chars)) csalt b'b' logr ≡ some out
      → generate_hash pass (prefix b'b' logr ++ (text ++ (more ++ (0 ∷ [])))) 62 ≡ some (true, out)
  unfolding generate_hash
  generate_hash-text csalt text more out logr size written positive low high made =
      let all = prefix b'b' logr ++ (text ++ more) in
      let long : ltb (length all + 1) 30 ≡ false =
        le→ltb_false (length all + 1) 30
          (omega (arith, length-append text more, written.size, size)) in
      let read : base64_decode 16 (text ++ (more ++ (0 ∷ []))) ≡ some (true, csalt) =
        subst (λ n. base64_decode n (text ++ (more ++ (0 ∷ []))) ≡ some (true, csalt)) size
          (written.read (more ++ (0 ∷ []))) in
      rw
        (
          strlen-text text more logr written.positive_chars positive,
          strlen-pass,
          long,
          is_header-prefix logr (text ++ (more ++ (0 ∷ []))) low high,
          read,
          rounds_of-prefix logr (text ++ (more ++ (0 ∷ []))) high,
          made,
        )
        refl

-- A new hash, by its parts: the header, the text of the salt and that of the coded words.
pub record NewHash (pass chars random : List ℕ) (logr : ℕ) : Type 0 where
  pub text : List ℕ
  pub htext : List ℕ
  pub written : IsText random text
  pub symbols : All IsSymbol htext
  pub size : length htext ≡ 32
  pub coded :
      hash_text pass (key_length b'b' (length chars)) random b'b' (clamp_rounds logr)
      ≡ some (prefix b'b' (clamp_rounds logr) ++ (text ++ (htext ++ (0 ∷ []))))
  pub made :
      bcrypt_newhash random pass logr 62
      ≡ some (true, prefix b'b' (clamp_rounds logr) ++ (text ++ (htext ++ (0 ∷ []))))

module _ (pass chars random : List ℕ) (logr : ℕ) (is : IsPassword pass chars)
    (size : length random ≡ 16) (bytes : All (λ c. c < 256) random) where
  pub new_hash : NewHash pass chars random logr
  unfolding bcrypt_newhash generate_salt
  new_hash =
      let rounds = clamp_rounds logr in
      let (low, high) = clamp_rounds_bounds logr in
      let (text, written) = encoded-IsText random bytes in
      let salt_is : IsKey random 16 = record {
        bytes = bytes;
        some_bytes = omega arith;
        fits = omega (arith, size);
        short = omega arith;
      } in
      let (htext, coded, symbols, hsize) =
        hash_text-total pass (key_length b'b' (length chars)) random text rounds
          (key_length-IsKey pass chars is) salt_is size written in
      let w : base64_encode random 16 ≡ some (text ++ (0 ∷ [])) =
        subst (λ n. base64_encode random n ≡ some (text ++ (0 ∷ []))) size written.written in
      record {
        text = text;
        htext = htext;
        written = written;
        symbols = symbols;
        size = hsize;
        coded = coded;
        made =
            rw
              (
                w,
                generate_hash-text pass chars is random text []
                    (prefix b'b' rounds ++ (text ++ (htext ++ (0 ∷ [])))) rounds size written tt low
                    high coded,
              )
              refl;
      }

  -- A string with the header and the salt of a new hash, and 32 characters behind them, is compared
  -- with the new hash.
  pub bcrypt_checkpass-compares :
      (signed r : Bool) (h : NewHash pass chars random logr) (more : List ℕ)
      → All (λ c. 0 < c) more
      → length more ≡ 32
      → hash_cmp signed
          (prefix b'b' (clamp_rounds logr) ++ (h.text ++ (more ++ (0 ∷ []))))
          (prefix b'b' (clamp_rounds logr) ++ (h.text ++ (h.htext ++ (0 ∷ []))))
          (length (prefix b'b' (clamp_rounds logr) ++ (h.text ++ h.htext)))
        ≡ some r
      → bcrypt_checkpass signed pass
          (prefix b'b' (clamp_rounds logr) ++ (h.text ++ (more ++ (0 ∷ []))))
        ≡ some r
  unfolding bcrypt_checkpass same_hash
  bcrypt_checkpass-compares signed r h more positive msize compared =
      let rounds = clamp_rounds logr in
      let (low, high) = clamp_rounds_bounds logr in
      let chars_ok = h.written.positive_chars in
      let same : length (prefix b'b' rounds ++ (h.text ++ more))
          ≡ length (prefix b'b' rounds ++ (h.text ++ h.htext)) =
        omega (arith, length-append h.text more, length-append h.text h.htext, msize, h.size) in
      rw
        (
          generate_hash-text pass chars is random h.text more _ rounds size h.written positive low
              high h.coded,
          strlen-text pass chars is h.text more rounds chars_ok positive,
          strlen-text pass chars is h.text h.htext rounds chars_ok
              (symbols-positive h.htext h.symbols),
          same,
          ==_refl (length (prefix b'b' rounds ++ (h.text ++ h.htext))),
        )
        compared

-- For every password, random salt and number of rounds, whether `char` is signed or not,
-- `bcrypt_newhash` makes a hash, which with its NUL is 62 bytes long, and `bcrypt_checkpass` accepts
-- the password for it.
pub bcrypt_checkpass-bcrypt_newhash :
    (signed : Bool) (pass chars random : List ℕ) (logr : ℕ)
    → IsPassword pass chars
    → length random ≡ 16
    → All (λ c. c < 256) random
    → (hash : List ℕ) × (bcrypt_newhash random pass logr 62 ≡ some (true, hash))
      × (bcrypt_checkpass signed pass hash ≡ some true)
      × (length hash ≡ 62)
bcrypt_checkpass-bcrypt_newhash signed pass chars random logr is size bytes =
    let h = new_hash pass chars random logr is size bytes in
    let all = prefix b'b' (clamp_rounds logr) ++ (h.text ++ h.htext) in
    let hash = prefix b'b' (clamp_rounds logr) ++ (h.text ++ (h.htext ++ (0 ∷ []))) in
    let joined : hash ≡ all ++ (0 ∷ []) = simp append_assoc in
    (
      hash,
      h.made,
      bcrypt_checkpass-compares pass chars random logr is size bytes signed true h h.htext
          (symbols-positive h.htext h.symbols) h.size
          (subst (λ x. hash_cmp signed x x (length all) ≡ some true) (sym joined)
            (hash_cmp-same signed all (0 ∷ []))),
      omega (
        arith,
        length-append h.text (h.htext ++ (0 ∷ [])),
        length-append h.htext (0 ∷ []),
        h.written.size,
        size,
        h.size,
      ),
    )
