-- ===== src/Checksum/Murmur/Reads.antt =====
-- src/murmur2.c reads the `len` bytes that it is given, and nothing else.
use kaplarc.Base.{
  ℕ, suc, ◌-◌, ◌<◌, ◌≡◌, arith, refl, Option, some, List, [], ◌∷◌, ◌++◌, length, u32, bit_xor,
  le→leb, lt→leb_false,
}
use kaplarc.Codec.Portable.{decode_u32_le}
use kaplarc.Checksum.Murmur.{mix_rest, mix_words, final_mix, murmur2_32}

-- The hash of a buffer that is followed by other bytes is that of the buffer alone.
abbrev Alone : List ℕ → List ℕ → Option ℕ → Option ℕ → Type 0
Alone p q o o' = (h : ℕ) × (o ≡ some h) × (o' ≡ some h)

last_bytes :
    (h : ℕ) (p q : List ℕ)
    → length p < 4
    → Alone p q (mix_rest h p (length p)) (mix_rest h (p ++ q) (length p))
unfolding mix_rest
last_bytes h [] q l = (h, refl, refl)
last_bytes h (d0 ∷ []) q l = (_, refl, refl)
last_bytes h (d0 ∷ d1 ∷ []) q l = (_, refl, refl)
last_bytes h (d0 ∷ d1 ∷ d2 ∷ []) q l = (_, refl, refl)
last_bytes h (d0 ∷ d1 ∷ d2 ∷ d3 ∷ p) q l = absurd (omega arith)

words_small : (h : ℕ) (p : List ℕ) (len : ℕ) → len < 4 → mix_words h p len ≡ mix_rest h p len
unfolding mix_words
words_small h [] len l = rw (lt→leb_false 4 len l) refl
words_small h (d0 ∷ []) len l = rw (lt→leb_false 4 len l) refl
words_small h (d0 ∷ d1 ∷ []) len l = rw (lt→leb_false 4 len l) refl
words_small h (d0 ∷ d1 ∷ d2 ∷ []) len l = rw (lt→leb_false 4 len l) refl
words_small h (d0 ∷ d1 ∷ d2 ∷ d3 ∷ p) len l = rw (lt→leb_false 4 len l) refl

words_last :
    (h : ℕ) (p q : List ℕ)
    → length p < 4
    → Alone p q (mix_words h p (length p)) (mix_words h (p ++ q) (length p))
words_last h p q l =
    rw (words_small h p (length p) l, words_small h (p ++ q) (length p) l) (last_bytes h p q l)

all_bytes :
    (p q : List ℕ) (h : ℕ) → Alone p q (mix_words h p (length p)) (mix_words h (p ++ q) (length p))
unfolding mix_words decode_u32_le
all_bytes (d0 ∷ d1 ∷ d2 ∷ d3 ∷ p) q h =
    let n : suc (suc (suc (suc (length p)))) - 4 ≡ length p = omega arith in
    rw (le→leb 4 (suc (suc (suc (suc (length p))))) (omega arith), n) (all_bytes p q _)
all_bytes [] q h = words_last h [] q (omega arith)
all_bytes (d0 ∷ []) q h = words_last h (d0 ∷ []) q (omega arith)
all_bytes (d0 ∷ d1 ∷ []) q h = words_last h (d0 ∷ d1 ∷ []) q (omega arith)
all_bytes (d0 ∷ d1 ∷ d2 ∷ []) q h = words_last h (d0 ∷ d1 ∷ d2 ∷ []) q (omega arith)

-- The hash of a buffer with its length is defined, and stays the same whatever bytes follow the
-- buffer.
pub murmur2_32_lem :
    (p q : List ℕ) (seed : ℕ)
    → (h : ℕ) × (murmur2_32 p (length p) seed ≡ some h)
      × (murmur2_32 (p ++ q) (length p) seed ≡ some h)
unfolding murmur2_32
murmur2_32_lem p q seed =
    let (h, e, e') = all_bytes p q (bit_xor (u32 (length p)) seed) in
    (final_mix h, rw e refl, rw e' refl)
