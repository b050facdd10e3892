-- ===== src/Crypto/Blowfish/Total.antt =====
-- The key schedules of src/crypto/blowfish.c read inside their buffers, so they always end.
use kaplarc.Base.{
  ℕ, zero, suc, ◌+◌, ◌*◌, ◌^◌, ◌≤◌, ◌<◌, ◌≡◌, refl, Option, some, List, [], ◌∷◌, length, set, All,
  bit_xor,
}
use native.Mathlib.Nat.{mod-lt}
use kaplarc.Crypto.Blowfish.{
  Context, Pair, Schedule, Mixer, no_salt, mix_salt, xor_key, schedule_p, schedule_s, in_pairs,
  expand, encode_one, blowfish_expandkey, blowfish_expandkey1, cyclic_buffer_get_u32,
}
use kaplarc.Crypto.Blowfish.Bounds.{cyclic_buffer_get_u32_lem}

-- A buffer of bytes that holds the `len` that are read round and round, at most 2 ^ 32.
pub record IsKey (buffer : List ℕ) (len : ℕ) : Type 0 where
  pub bytes : All (λ x. x < 256) buffer
  pub some_bytes : 0 < len
  pub fits : len ≤ length buffer
  pub short : len ≤ 2 ^ 32

-- A mixer that keeps its position good, and never fails there.
abbrev IsSteady : Mixer → (ℕ → Type 0) → Type 0
IsSteady mix Good =
    (d : Pair) (j : ℕ) → Good j → (d' : Pair) × (j' : ℕ) × (mix d j ≡ some (d', j')) × Good j'

module _ (key : List ℕ) (len : ℕ) (is : IsKey key len) where
  next_word :
      (j : ℕ)
      → j < len
      → (w : ℕ) × (j' : ℕ) × (cyclic_buffer_get_u32 key len j ≡ some (w, j')) × (j' < len)
  next_word j h = (
    _,
    _,
    cyclic_buffer_get_u32_lem key len is.bytes is.fits is.short j h,
    mod-lt (j + 4) is.some_bytes,
  )

  xor_key-total : (p : List ℕ) (j : ℕ) → j < len → (q : List ℕ) × (xor_key p key len j ≡ some q)
  unfolding xor_key
  xor_key-total [] j h = ([], refl)
  xor_key-total (x ∷ p) j h =
      let (w, j', run, h') = next_word j h in
      let (q, rest) = xor_key-total p j' h' in (bit_xor x w ∷ q, rw (run, rest) refl)

  mix_salt-IsSteady : IsSteady (mix_salt key len) (λ j. j < len)
  unfolding mix_salt
  mix_salt-IsSteady d j h =
      let (w, j1, run1, h1) = next_word j h in
      let (v, j2, run2, h2) = next_word j1 h1 in
      (record { l = bit_xor d.l w; r = bit_xor d.r v }, j2, rw (run1, run2) refl, h2)

no_salt-IsSteady : IsSteady no_salt (λ j. Unit {0})
unfolding no_salt
no_salt-IsSteady d j h = (d, j, refl, tt)

module _ (mix : Mixer) (Good : ℕ → Type 0) (steady : IsSteady mix Good) where
  schedule_p-total :
      (i : ℕ) (st : Schedule)
      → Good st.j
      → (st' : Schedule) × (schedule_p mix i st ≡ some st') × Good st'.j
  unfolding schedule_p
  schedule_p-total i st h =
      let (d, j, run, h') = steady st.d st.j h in
      let e = encode_one st.ctx d in
      (
        record {
          ctx = record { p = set (set st.ctx.p i e.l) (i + 1) e.r; s = st.ctx.s };
          d = e;
          j = j;
        },
        rw run refl,
        h',
      )

  schedule_s-total :
      (i : ℕ) (st : Schedule)
      → Good st.j
      → (st' : Schedule) × (schedule_s mix i st ≡ some st') × Good st'.j
  unfolding schedule_s
  schedule_s-total i st h =
      let (d, j, run, h') = steady st.d st.j h in
      let e = encode_one st.ctx d in
      (
        record {
          ctx = record { p = st.ctx.p; s = set (set st.ctx.s i e.l) (i + 1) e.r };
          d = e;
          j = j;
        },
        rw run refl,
        h',
      )

in_pairs-total :
    (Good : ℕ → Type 0) (body : ℕ → Schedule → Option Schedule)
    → ((i : ℕ) (st : Schedule) → Good st.j → (st' : Schedule) × (body i st ≡ some st') × Good st'.j)
    → (n : ℕ) (st : Schedule) → Good st.j
    → (st' : Schedule) × (in_pairs body n st ≡ some st') × Good st'.j
unfolding in_pairs
in_pairs-total Good body steps zero st h = (st, refl, h)
in_pairs-total Good body steps (suc n) st h =
    let (st1, run1, h1) = in_pairs-total Good body steps n st h in
    let (st2, run2, h2) = steps (2 * n) st1 h1 in (st2, rw (run1, run2) refl, h2)

expand-total :
    (mix : Mixer) (Good : ℕ → Type 0)
    → IsSteady mix Good
    → Good 0
    → (b : Context) (key : List ℕ) (len : ℕ) → IsKey key len
    → (c : Context) × (expand mix b key len ≡ some c)
unfolding expand
expand-total mix Good steady start b key len is =
    let (p, run) = xor_key-total key len is b.p 0 is.some_bytes in
    let (st, run1, h1) =
      in_pairs-total Good (schedule_p mix) (schedule_p-total mix Good steady) 9
        (record { ctx = record { p = p; s = b.s }; d = record { l = 0; r = 0 }; j = 0 }) start in
    let (e, run2, h2) =
      in_pairs-total Good (schedule_s mix) (schedule_s-total mix Good steady) 512 st h1 in
    (e.ctx, rw (run, run1, run2) refl)

-- Expanding with a key never reads outside it.
pub blowfish_expandkey-total :
    (b : Context) (key : List ℕ) (len : ℕ)
    → IsKey key len
    → (c : Context) × (blowfish_expandkey b key len ≡ some c)
unfolding blowfish_expandkey
blowfish_expandkey-total = expand-total no_salt (λ j. Unit {0}) no_salt-IsSteady tt

-- Nor with a key and a salt.
pub blowfish_expandkey1-total :
    (b : Context) (key : List ℕ) (keylen : ℕ) (salt : List ℕ) (saltlen : ℕ)
    → IsKey key keylen
    → IsKey salt saltlen
    → (c : Context) × (blowfish_expandkey1 b key keylen salt saltlen ≡ some c)
unfolding blowfish_expandkey1
blowfish_expandkey1-total b key keylen salt saltlen is is' =
    expand-total (mix_salt salt saltlen) (λ j. j < saltlen) (mix_salt-IsSteady salt saltlen is')
      is'.some_bytes b key keylen is
