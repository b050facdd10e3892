-- ===== src/Crypto/Base64/Text.antt =====
-- The text that `base64_encode` of src/crypto/base64.c writes, without its NUL.
use kaplarc.Base.{
  ℕ, zero, suc, ◌+◌, ◌*◌, ◌/◌, ◌%◌, ◌<◌, ◌≡◌, refl, sym, subst, ap, ◌∙◌, ◌⊎◌, inl, inr, Bool, true,
  false, ◌||◌, Option, none, some, List, [], ◌∷◌, ◌++◌, All, length, length-append, arith, ◌>>=◌,
  ◌>>>◌, ◌<<<◌, ◌-◌, ◌&&◌, ◌==◌, get_or, drop, dec_lt, bit_and, bit_or, Option-cases, if◌then◌else◌,
}
use kaplarc.Crypto.Base64.{
  base64_encode, base64_decode, encode_rest, encode_groups, decode_rest, decode_groups, decode64,
  bad, byte0, byte1, byte2, base64, decode_table,
}
use kaplarc.Crypto.Base64.RoundTrip.{base64_decode-base64_encode}

-- What is said of a character of the alphabet: it is an ASCII character above 1.
abbrev pub IsSymbol : ℕ → Type 0
IsSymbol c = (1 < c) × (c < 128)

some_eq : {A : Type 0} {x y : A} → some x ≡ some y → x ≡ y
some_eq e = cc

-- The encoder's last byte is a NUL.
rest_ends :
    (r : ℕ) (p out : List ℕ)
    → encode_rest r p ≡ some out
    → (text : List ℕ) × (out ≡ text ++ (0 ∷ []))
unfolding encode_rest
rest_ends zero p out e = ([], ground (arith, e))
rest_ends (suc zero) [] out e = absurd (ground (arith, e))
rest_ends (suc zero) (p0 ∷ p) out e = (_ ∷ _ ∷ [], sym (some_eq e))
rest_ends (suc (suc zero)) [] out e = absurd (ground (arith, e))
rest_ends (suc (suc zero)) (p0 ∷ []) out e = absurd (ground (arith, e))
rest_ends (suc (suc zero)) (p0 ∷ p1 ∷ p) out e = (_ ∷ _ ∷ _ ∷ [], sym (some_eq e))
rest_ends (suc (suc (suc r))) p out e = ([], ground (arith, e))

groups_end :
    (n r : ℕ) (p out : List ℕ)
    → encode_groups n r p ≡ some out
    → (text : List ℕ) × (out ≡ text ++ (0 ∷ []))
unfolding encode_groups
groups_end zero r p out e = rest_ends r p out e
groups_end (suc n) r (p0 ∷ p1 ∷ p2 ∷ p) out e =
    let c0 = base64 (p0 >>> 2) in
    let c1 = base64 (bit_or (bit_and p0 0x03 <<< 4) (bit_and (p1 >>> 4) 0x0F)) in
    let c2 = base64 (bit_or (bit_and p1 0x0F <<< 2) (bit_and (p2 >>> 6) 0x03)) in
    let c3 = base64 (bit_and p2 0x3F) in
    elim (Option-cases (encode_groups n r p)) [
      | inl e0 ↦ absurd (ground (arith, e, e0))
      | inr (o, e0) ↦
          let (text, t) = groups_end n r p o e0 in
          let whole : some (c0 ∷ c1 ∷ c2 ∷ c3 ∷ o) ≡ some out = rw e0 at e in
          (c0 ∷ c1 ∷ c2 ∷ c3 ∷ text, sym (some_eq whole) ∙ ap (λ l. c0 ∷ c1 ∷ c2 ∷ c3 ∷ l) t)
    ]
groups_end (suc n) r p out e = absurd (ground (arith, e))

get_or-drop : (n i d : ℕ) (l : List ℕ) → get_or l (n + i) d ≡ get_or (drop n l) i d
get_or-drop zero i d l = ap (λ (k : ℕ). get_or l k d) (omega arith)
get_or-drop (suc n) i d [] = refl
get_or-drop (suc n) i d (x ∷ l) =
    ap (λ (k : ℕ). get_or (x ∷ l) k d) {x = suc n + i} {y = suc (n + i)} (omega arith)
    ∙ get_or-drop n i d l

all_equal : ℕ → List ℕ → Bool
all_equal d [] = true
all_equal d (x ∷ l) = (x == d) && all_equal d l

get_or-all_equal : (d i : ℕ) (l : List ℕ) → all_equal d l ≡ true → get_or l i d ≡ d
unfolding all_equal
get_or-all_equal d i [] h = refl
get_or-all_equal d zero (x ∷ l) h = ground arith
get_or-all_equal d (suc i) (x ∷ l) h = get_or-all_equal d i l (ground arith)

above_letters : all_equal 0xFF (drop 123 decode_table) ≡ true
unfolding all_equal
above_letters = refl

true-false : ¬ (true ≡ false)
true-false e = cc

-- No other character is accepted.
symbol : (c : ℕ) → bad (decode64 c) ≡ false → IsSymbol c
unfolding decode64
symbol zero e = absurd (ground (arith, e))
symbol (suc zero) e = absurd (ground (arith, e))
symbol (suc (suc c)) e = elim (dec_lt (suc (suc c)) 123) [
  | yes l ↦ omega arith
  | no far ↦
      let entry : get_or decode_table (123 + (suc (suc c) - 123)) 0xFF ≡ 0xFF =
        get_or-drop 123 (suc (suc c) - 123) 0xFF decode_table
        ∙ get_or-all_equal 0xFF (suc (suc c) - 123) (drop 123 decode_table) above_letters in
      let same : 123 + (suc (suc c) - 123) ≡ suc (suc c) = omega arith in
      let here : get_or decode_table (suc (suc c)) 0xFF ≡ 0xFF =
        ap (λ (k : ℕ). get_or decode_table k 0xFF) (sym same) ∙ entry in
      absurd (true-false (ap bad (sym here) ∙ e))
]

-- How many characters the decoder reads.
abbrev needed : ℕ → ℕ → ℕ
needed n zero = 4 * n
needed n (suc r) = 4 * n + r + 2

-- Where the decoder accepts, the characters that it reads are no NUL, and what follows them does
-- not matter.
read_rest :
    (r : ℕ) (text tail p : List ℕ)
    → r < 3
    → length text ≡ needed 0 r
    → decode_rest r (text ++ tail) ≡ some (true, p)
    → All IsSymbol text × ((other : List ℕ) → decode_rest r (text ++ other) ≡ some (true, p))
unfolding decode_rest
read_rest zero [] tail p h l e = (tt, λ other. e)
read_rest zero (c ∷ text) tail p h l e = absurd (omega (arith, l))
read_rest (suc zero) (c0 ∷ c1 ∷ []) tail p h l e =
    (ground (arith, e, symbol c0, symbol c1), λ other. e)
read_rest (suc (suc zero)) (c0 ∷ c1 ∷ c2 ∷ []) tail p h l e =
    (ground (arith, e, symbol c0, symbol c1, symbol c2), λ other. e)
read_rest (suc (suc (suc r))) text tail p h l e = absurd (omega arith)
read_rest r text tail p h l e = absurd (omega (arith, l))

-- What an accepting group says of its characters and of the rest.
group_accepts :
    (b : Bool) (o : Option (Bool × List ℕ)) (f : List ℕ → List ℕ) (p : List ℕ)
    → if◌then◌else◌ {A = Option (Bool × List ℕ)} b (some (false, [])) (o >>= λ d. some (d.0, f d.1))
      ≡ some (true, p)
    → (b ≡ false) × ((q : List ℕ) × (o ≡ some (true, q)) × (f q ≡ p))
group_accepts true o f p e = absurd (ground (arith, e))
group_accepts false none f p e = absurd (ground (arith, e))
group_accepts false (some (a, q)) f p e = (refl, (q, ground (arith, e), ground (arith, e)))

no_bad :
    (a b c d : Bool)
    → (a || b || c || d) ≡ false
    → (a ≡ false) × (b ≡ false) × (c ≡ false) × (d ≡ false)
no_bad a b c d e = ground (arith, e)

length_tail : (n r m : ℕ) → r < 3 → 4 + m ≡ needed (suc n) r → m ≡ needed n r
length_tail n zero m h l = omega (arith, l)
length_tail n (suc r) m h l = omega (arith, l)

read_groups :
    (n r : ℕ) (text tail p : List ℕ)
    → r < 3
    → length text ≡ needed n r
    → decode_groups n r (text ++ tail) ≡ some (true, p)
    → All IsSymbol text × ((other : List ℕ) → decode_groups n r (text ++ other) ≡ some (true, p))
unfolding decode_groups
read_groups zero r text tail p h l e = read_rest r text tail p h l e
read_groups (suc n) r (c0 ∷ c1 ∷ c2 ∷ c3 ∷ text) tail p h l e =
    let f = λ (q : List ℕ).
      byte0 (decode64 c0) (decode64 c1)
      ∷ byte1 (decode64 c1) (decode64 c2)
      ∷ byte2 (decode64 c2) (decode64 c3)
      ∷ q in
    let b = bad (decode64 c0) || bad (decode64 c1) || bad (decode64 c2) || bad (decode64 c3) in
    let (fine, (q, rest, whole)) = group_accepts b (decode_groups n r (text ++ tail)) f p e in
    let (n0, n1, n2, n3) =
      no_bad (bad (decode64 c0)) (bad (decode64 c1)) (bad (decode64 c2)) (bad (decode64 c3)) fine in
    let (chars, any) =
      read_groups n r text tail q h (length_tail n r (length text) h (omega (arith, l))) rest in
    (
      (symbol c0 n0, (symbol c1 n1, (symbol c2 n2, (symbol c3 n3, chars)))),
      λ other. rw (n0, n1, n2, n3, any other) (ap (λ x. some (true, x)) whole),
    )
read_groups (suc n) zero text tail p h l e = absurd (omega (arith, l))
read_groups (suc n) (suc r) text tail p h l e = absurd (omega (arith, l))

small : (r : ℕ) → r < 3 → (r ≡ 0) ⊎ (r ≡ 1) ⊎ (r ≡ 2)
small zero h = inl refl
small (suc zero) h = inr (inl refl)
small (suc (suc zero)) h = inr (inr refl)
small (suc (suc (suc r))) h = absurd (omega arith)

needed-length : (m : ℕ) → needed (m / 3) (m % 3) ≡ (m * 4 + 2) / 3
needed-length m = elim (small (m % 3) (omega arith)) [
  | inl e ↦ rw e (omega (arith, e))
  | inr (inl e) ↦ rw e (omega (arith, e))
  | inr (inr e) ↦ rw e (omega (arith, e))
]

pub symbols-positive : (text : List ℕ) → All IsSymbol text → All (λ c. 0 < c) text
symbols-positive [] h = tt
symbols-positive (c ∷ text) h = (omega (arith, h.0), symbols-positive text h.1)

-- A text of the alphabet, that its decoder reads back whatever follows it.
pub record IsText (p text : List ℕ) : Type 0 where
  pub written : base64_encode p (length p) ≡ some (text ++ (0 ∷ []))
  pub size : length text ≡ (length p * 4 + 2) / 3
  pub symbols : All IsSymbol text
  pub positive_chars : All (λ c. 0 < c) text
  pub read : (tail : List ℕ) → base64_decode (length p) (text ++ tail) ≡ some (true, p)

pub encoded-IsText : (p : List ℕ) → All (λ b. b < 256) p → (text : List ℕ) × IsText p text
unfolding base64_encode base64_decode
encoded-IsText p bytes =
    let (out, written, back, size) = base64_decode-base64_encode p bytes in
    let (text, ends) = groups_end (length p / 3) (length p % 3) p out written in
    let count : length text ≡ (length p * 4 + 2) / 3 =
      omega (arith, size, ap length ends, length-append text (0 ∷ [])) in
    let (chars, any) =
      read_groups (length p / 3) (length p % 3) text (0 ∷ []) p (omega arith)
        (count ∙ sym (needed-length (length p)))
        (subst (λ x. decode_groups (length p / 3) (length p % 3) x ≡ some (true, p)) ends back) in
    (
      text,
      record {
        written = written ∙ ap some ends;
        size = count;
        symbols = chars;
        positive_chars = symbols-positive text chars;
        read = any;
      },
    )
