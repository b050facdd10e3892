-- ===== src/Crypto/Blowfish/Bounds.antt =====
-- The cyclic reader of src/crypto/blowfish.c stays inside its buffer.
use kaplarc.Base.{
  ℕ, zero, suc, ◌+◌, ◌*◌, ◌%◌, ◌^◌, ◌≤◌, ◌<◌, ◌≡◌, refl, sym, ℕ_discrete, ap, ap₂, ◌∙◌, some, List,
  [], ◌∷◌, u32, ◌<<<◌, bit_or, get_elem?, get_or, length, All, arith,
}
use native.Mathlib.Nat.{add_assoc, mod-add-mod, mod-eq_of_lt, mod_self, mod-lt}
use kaplarc.Base.Bits.{or_disjoint}
use kaplarc.Crypto.Blowfish.{cycle, cyclic_bytes, cyclic_buffer_get_u32}

-- A byte of the buffer.
abbrev pub byte : List ℕ → ℕ → ℕ
byte buffer i = get_or buffer i 0

get_elem?-byte : (l : List ℕ) (i : ℕ) → i < length l → get_elem? l i ≡ some (byte l i)
get_elem?-byte [] i h = absurd (omega arith)
get_elem?-byte (x ∷ l) zero h = refl
get_elem?-byte (x ∷ l) (suc i) h = get_elem?-byte l i (omega arith)

byte-lt : (l : List ℕ) (i : ℕ) → All (λ x. x < 256) l → byte l i < 256
byte-lt [] i a = omega arith
byte-lt (x ∷ l) zero a = a.0
byte-lt (x ∷ l) (suc i) a = byte-lt l i a.1

-- The last position of a buffer of 2 ^ 32 bytes wraps to 0 by itself.
cycle_last : (len j : ℕ) → len ≤ 2 ^ 32 → len ≡ j + 1 → cycle len j ≡ 0
unfolding cycle
cycle_last len j short e = ground arith

cycle_next : (len j : ℕ) → len ≤ 2 ^ 32 → j + 1 < len → cycle len j ≡ j + 1
unfolding cycle
cycle_next len j short h = ground arith

cycle_lem : (len j : ℕ) → len ≤ 2 ^ 32 → j < len → cycle len j ≡ (j + 1) % len
cycle_lem len j short h = elim (ℕ_discrete len (j + 1)) [
  | yes e ↦
      let back : cycle len j ≡ 0 = cycle_last len j short e in
      back ∙ sym (ap (λ (x : ℕ). x % len) (sym e) ∙ mod_self len)
  | no ne ↦ cycle_next len j short (omega arith) ∙ sym (mod-eq_of_lt (omega arith))
]

cycle-mod : (len j i : ℕ) → len ≤ 2 ^ 32 → 0 < len → cycle len ((j + i) % len) ≡ (j + i + 1) % len
cycle-mod len j i short h =
    cycle_lem len ((j + i) % len) short (mod-lt (j + i) h) ∙ mod-add-mod (j + i) len 1

-- One byte is shifted in, while there is room for it.
shift_in : (d c : ℕ) → d < 2 ^ 24 → c < 256 → bit_or (u32 (d <<< 8)) c ≡ d * 2 ^ 8 + c
shift_in d c h g =
    let fits : u32 (d <<< 8) ≡ d * 2 ^ 8 = omega arith in
    ap (λ x. bit_or x c) fits ∙ or_disjoint 8 d c (omega arith)

module _ (buffer : List ℕ) (len : ℕ) (bytes : All (λ x. x < 256) buffer)
    (fits : len ≤ length buffer) (short : len ≤ 2 ^ 32) where
  cyclic_bytes-suc :
      (n d j : ℕ)
      → d < 2 ^ 24
      → j < len
      → cyclic_bytes (suc n) buffer len d j
        ≡ cyclic_bytes n buffer len (d * 2 ^ 8 + byte buffer j) (cycle len j)
  unfolding cyclic_bytes
  cyclic_bytes-suc n d j h i = rw (get_elem?-byte buffer j (omega arith)) (
      ap (λ x. cyclic_bytes n buffer len x (cycle len j))
        (shift_in d (byte buffer j) h (byte-lt buffer j bytes)))

  -- From a position in the buffer, of at most 2 ^ 32 bytes, the reader gives the four bytes that come next round the first
  -- `len` bytes, the first one highest, and leaves the position after them, round the buffer.
  pub cyclic_buffer_get_u32_lem :
      (j : ℕ)
      → j < len
      → cyclic_buffer_get_u32 buffer len j
        ≡ some (
          byte buffer j * 2 ^ 24
              + byte buffer ((j + 1) % len) * 2 ^ 16
              + byte buffer ((j + 2) % len) * 2 ^ 8
              + byte buffer ((j + 3) % len),
          (j + 4) % len,
        )
  unfolding cyclic_buffer_get_u32 cyclic_bytes
  cyclic_buffer_get_u32_lem j h =
      let some_len : 0 < len = omega arith in
      let plus = λ (i : ℕ). ap (λ x. x % len) (add_assoc j i 1) in
      let b0 = byte-lt buffer j bytes in
      let b1 = byte-lt buffer ((j + 1) % len) bytes in
      let b2 = byte-lt buffer ((j + 2) % len) bytes in
      let d1 = 0 * 2 ^ 8 + byte buffer j in
      let d2 = d1 * 2 ^ 8 + byte buffer ((j + 1) % len) in
      let d3 = d2 * 2 ^ 8 + byte buffer ((j + 2) % len) in
      cyclic_bytes-suc 3 0 j (omega arith) h
      ∙ ap (cyclic_bytes 3 buffer len d1) (cycle_lem len j short h)
      ∙ cyclic_bytes-suc 2 d1 ((j + 1) % len) (omega arith) (mod-lt (j + 1) some_len)
      ∙ ap (cyclic_bytes 2 buffer len d2) (cycle-mod len j 1 short some_len ∙ plus 1)
      ∙ cyclic_bytes-suc 1 d2 ((j + 2) % len) (omega arith) (mod-lt (j + 2) some_len)
      ∙ ap (cyclic_bytes 1 buffer len d3) (cycle-mod len j 2 short some_len ∙ plus 2)
      ∙ cyclic_bytes-suc 0 d3 ((j + 3) % len) (omega arith) (mod-lt (j + 3) some_len)
      ∙ ap₂ (λ x y. some (x, y)) (omega arith) (cycle-mod len j 3 short some_len ∙ plus 3)
