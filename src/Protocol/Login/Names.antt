-- ===== src/Protocol/Login/Names.antt =====
-- The key and the two names in the first message of a client, in src/protocol_login.c.
use kaplarc.Base.{
  ℕ, suc, ◌+◌, ◌%◌, ◌^◌, ◌≤◌, ◌<◌, ◌≡◌, ◌⊎◌, inl, inr, refl, arith, Bool-cases, some, List, [], ◌∷◌,
  ◌++◌, take, drop, length, length-append, length-take, length-drop, min, ltb, ltb→lt, ◌==◌, u16,
  bit_or, ◌<<<◌,
}
use kaplarc.Codec.Portable.{decode_u16_le, decode_u32_le}
use kaplarc.Codec.TibiaString.{decode_tibia_string, decode_tibia_string_cut}
use kaplarc.Protocol.Login.{LoginInfo, c_string, decode_key, decode_names}

-- An array of 32 chars that holds a C string.
pub record HoldsString (s : List ℕ) : Type 0 where
  pub size : length s ≡ 32
  pub terminated : length (c_string s) < 32

c_string-lt : (xs ys : List ℕ) → length (c_string (xs ++ (0 ∷ ys))) ≤ length xs
unfolding c_string
c_string-lt [] ys = omega arith
c_string-lt (x ∷ xs) ys = elim (Bool-cases (x == 0)) [
  | inl e ↦ rw e (omega arith)
  | inr e ↦ rw e (omega (arith, c_string-lt xs ys))
]

min-le : (a b : ℕ) → min a b ≤ b
min-le a b = ground arith

decode_u16_le_front :
    (d0 d1 : ℕ) (rest : List ℕ) → decode_u16_le (d0 ∷ d1 ∷ rest) ≡ some (u16 (bit_or d0 (d1 <<< 8)))
unfolding decode_u16_le
decode_u16_le_front d0 d1 rest = refl

-- Any string of the message, of whatever length it claims, fills an array of 32.
decode_string_32 :
    (input out : List ℕ)
    → 33 ≤ length input
    → length out ≡ 32
    → (s : List ℕ) × (size : ℕ) × (decode_tibia_string input out 32 ≡ some (s, size))
      × HoldsString s
decode_string_32 (d0 ∷ d1 ∷ rest) out room size =
    let len = u16 (bit_or d0 (d1 <<< 8)) in
    let m = min len 31 in
    let front : length (take m rest) ≡ m = omega (arith, length-take m rest, min-le len 31) in
    (
      take m rest ++ (0 ∷ drop (suc m) out),
      (len + 2) % 2 ^ 16,
      decode_tibia_string_cut (d0 ∷ d1 ∷ rest) out len 32 (decode_u16_le_front d0 d1 rest)
          (omega (arith, min-le len 31)) (omega arith) (omega arith),
      record {
        size = omega (
          arith,
          length-append (take m rest) (0 ∷ drop (suc m) out),
          front,
          length-drop (suc m) out,
          min-le len 31,
        );
        terminated =
            omega (arith, c_string-lt (take m rest) (drop (suc m) out), front, min-le len 31);
      },
    )
decode_string_32 _ out room size = absurd (omega arith)

decode_u32_le-some : (p : List ℕ) → 4 ≤ length p → (k : ℕ) × (decode_u32_le p ≡ some k)
unfolding decode_u32_le
decode_u32_le-some (d0 ∷ d1 ∷ d2 ∷ d3 ∷ p) h = (_, refl)
decode_u32_le-some _ h = absurd (omega arith)

pub decode_u16_le-some : (p : List ℕ) → 2 ≤ length p → (k : ℕ) × (decode_u16_le p ≡ some k)
unfolding decode_u16_le
decode_u16_le-some (d0 ∷ d1 ∷ p) h = (_, refl)
decode_u16_le-some _ h = absurd (omega arith)

pub decode_key-some :
    (p : List ℕ) → 16 ≤ length p → (key : List ℕ) × (decode_key p ≡ some key) × (length key ≡ 4)
unfolding decode_key
decode_key-some p h =
    let (k0, e0) = decode_u32_le-some p (omega arith) in
    let (k1, e1) = decode_u32_le-some (drop 4 p) (omega (arith, length-drop 4 p)) in
    let (k2, e2) = decode_u32_le-some (drop 8 p) (omega (arith, length-drop 8 p)) in
    let (k3, e3) = decode_u32_le-some (drop 12 p) (omega (arith, length-drop 12 p)) in
    (k0 ∷ k1 ∷ k2 ∷ k3 ∷ [], rw (e0, e1, e2, e3) refl, refl)

-- A login that is as it was but for its two names.
pub record Named (login login' : LoginInfo) : Type 0 where
  pub same_connection : login'.connection ≡ login.connection
  pub same_output : login'.output ≡ login.output
  pub same_xtea : login'.xtea ≡ login.xtea

abbrev pub NamesRead : List ℕ → LoginInfo → Type 0
NamesRead p login =
    (a : ℕ) × (b : ℕ) × (login' : LoginInfo) × (decode_names p login ≡ some (a, b, login'))
    × Named login login'
    × ((32 < a) ⊎ (HoldsString login'.accname × HoldsString login'.password))

pub decode_names_lem :
    (p : List ℕ) (login : LoginInfo)
    → 128 ≤ length p
    → length login.accname ≡ 32
    → length login.password ≡ 32
    → NamesRead p login
unfolding decode_names
decode_names_lem p login room acc pass =
    let (name, a, e, holds) =
      decode_string_32 (drop 16 p) login.accname (omega (arith, length-drop 16 p)) acc in
    elim (Bool-cases (ltb 32 a)) [
      | inl long ↦ (
        a,
        0,
        record login { accname = name },
        rw (e, long) refl,
        record { same_connection = refl; same_output = refl; same_xtea = refl },
        inl (ltb→lt 32 a long),
      )
      | inr short ↦
          let (word, b, f, holds') =
            decode_string_32 (drop (16 + a) p) login.password
              (ground (arith, length-drop (16 + a) p)) pass in
          (
            a,
            b,
            record login { accname = name; password = word },
            rw (e, short, f) refl,
            record { same_connection = refl; same_output = refl; same_xtea = refl },
            inr (holds, holds'),
          )
    ]
