-- ===== src/Codec/TibiaString.antt =====
-- `decode_tibia_string` of src/buffer_util.h: a string with its length in front.
use kaplarc.Base.{
  ℕ, zero, suc, ◌+◌, ◌-◌, ◌%◌, ◌^◌, ◌≤◌, ◌<◌, ◌≡◌, arith, refl, ap, Option, none, some, List, [],
  ◌∷◌, ◌++◌, length, take, drop, u16, ltb, leb, lt→ltb, if◌then◌else◌, ◌>>=◌, min,
}
use kaplarc.Codec.Portable.{decode_u16_le}

-- memcpy(out, from, n), onto a buffer: `none` when one of them is shorter than `n`.
unfoldable pub memcpy : ℕ → List ℕ → List ℕ → Option (List ℕ)
memcpy zero out from = some out
memcpy (suc n) (o ∷ out) (b ∷ from) = memcpy n out from >>= λ rest. some (b ∷ rest)
memcpy (suc n) out from = none

-- out[i] = 0
unfoldable pub terminate : ℕ → List ℕ → Option (List ℕ)
terminate i [] = none
terminate zero (o ∷ out) = some (0 ∷ out)
terminate (suc i) (o ∷ out) = terminate i out >>= λ rest. some (o ∷ rest)

-- What is stored in `outstr`, which is not NULL, and what is returned. `len + 2` is cast to uint16.
unfoldable pub decode_tibia_string : List ℕ → List ℕ → ℕ → Option (List ℕ × ℕ)
decode_tibia_string input outstr maxlen = decode_u16_le input >>= λ len.
    let copy_len = if leb maxlen len then maxlen - 1 else len in
    let copied = memcpy copy_len outstr (drop 2 input) >>= λ out. terminate copy_len out in
    let stored =
      if ltb 0 maxlen then (if ltb 0 len then copied else terminate 0 outstr) else some outstr in
    stored >>= λ out. some (out, u16 (len + 2))

module _ {ℓ} {A : Type ℓ} where
  length-take_lem : (n : ℕ) (xs : List A) → n ≤ length xs → length (take n xs) ≡ n
  length-take_lem zero xs h = refl
  length-take_lem (suc n) [] h = absurd (omega arith)
  length-take_lem (suc n) (x ∷ xs) h = ap suc (length-take_lem n xs (omega arith))

-- The copied string, its NUL, and what the buffer held behind it.
copied_lem :
    (n : ℕ) (out from : List ℕ)
    → n < length out
    → n ≤ length from
    → (memcpy n out from >>= λ o. terminate n o) ≡ some (take n from ++ (0 ∷ drop (suc n) out))
unfolding memcpy terminate
copied_lem zero [] from h k = absurd (omega arith)
copied_lem zero (o ∷ out) from h k = refl
copied_lem (suc n) [] from h k = absurd (omega arith)
copied_lem (suc n) (o ∷ out) [] h k = absurd (omega arith)
copied_lem (suc n) (o ∷ out) (b ∷ from) h k =
    step (memcpy n out from) (copied_lem n out from (omega arith) (omega arith))
  where
    step :
        (r : Option (List ℕ))
        → (r >>= λ o. terminate n o) ≡ some (take n from ++ (0 ∷ drop (suc n) out))
        → ((r >>= λ rest. some (b ∷ rest)) >>= λ o. terminate (suc n) o)
          ≡ some (b ∷ (take n from ++ (0 ∷ drop (suc n) out)))
    step none e = absurd (cc)
    step (some rest) e = rw e refl

copy_len_lem :
    (len maxlen : ℕ)
    → 0 < maxlen
    → (if leb maxlen len then maxlen - 1 else len) ≡ min len (maxlen - 1)
copy_len_lem len maxlen h = ground arith

-- It is enough that the input holds as much of the string as is copied.
pub decode_tibia_string_cut :
    (input outstr : List ℕ) (len maxlen : ℕ)
    → decode_u16_le input ≡ some len
    → min len (maxlen - 1) + 2 ≤ length input
    → 0 < maxlen
    → maxlen ≤ length outstr
    → decode_tibia_string input outstr maxlen
      ≡ some (
        take (min len (maxlen - 1)) (drop 2 input)
            ++ (0 ∷ drop (suc (min len (maxlen - 1))) outstr),
        (len + 2) % 2 ^ 16,
      )
unfolding decode_tibia_string terminate
decode_tibia_string_cut [] outstr len maxlen e size pos room = absurd (omega arith)
decode_tibia_string_cut (d0 ∷ []) outstr len maxlen e size pos room = absurd (omega arith)
decode_tibia_string_cut (d0 ∷ d1 ∷ body) [] len maxlen e size pos room = absurd (omega arith)
decode_tibia_string_cut (d0 ∷ d1 ∷ body) (o ∷ outstr) zero maxlen e size pos room =
    rw (e, lt→ltb 0 maxlen pos) (ground arith)
decode_tibia_string_cut (d0 ∷ d1 ∷ body) (o ∷ outstr) (suc len) maxlen e size pos room =
    rw
      (
        e,
        lt→ltb 0 maxlen pos,
        lt→ltb 0 (suc len) (omega arith),
        copy_len_lem (suc len) maxlen pos,
        copied_lem (min (suc len) (maxlen - 1)) (o ∷ outstr) body (ground arith) (ground arith),
      )
      refl

-- A string of `len` bytes that lies in the input, decoded into a buffer of at least `maxlen` bytes:
-- the buffer starts with as much of the string as fits, at most `maxlen - 1` bytes, and a NUL, and
-- is otherwise unchanged. The answer is the size of the string in the input, modulo 2 ^ 16.
pub decode_tibia_string_lem :
    (input outstr : List ℕ) (len maxlen : ℕ)
    → decode_u16_le input ≡ some len
    → len + 2 ≤ length input
    → 0 < maxlen
    → maxlen ≤ length outstr
    → decode_tibia_string input outstr maxlen
      ≡ some (
        take (min len (maxlen - 1)) (drop 2 input)
            ++ (0 ∷ drop (suc (min len (maxlen - 1))) outstr),
        (len + 2) % 2 ^ 16,
      )
decode_tibia_string_lem input outstr len maxlen e size pos room =
    decode_tibia_string_cut input outstr len maxlen e (ground arith) pos room
