-- ===== src/Memory/Outbuf/Write.antt =====
-- src/outbuf.c: every writer appends to what has been written.
use kaplarc.Base.{
  ℕ, zero, suc, ◌+◌, ◌≤◌, ◌≡◌, arith, refl, ◌∙◌, ap, Option, some, List, [], ◌∷◌, ◌++◌, length,
  take, take_front, append_assoc, u8, u16, ◌>>>◌,
}
use kaplarc.Codec.Portable.{encode_u8, encode_u16_le, encode_u32_le}
use kaplarc.Codec.TibiaString.{memcpy}
use kaplarc.Memory.Outbuf.{
  Outbuf, write_at, outbuf_write_byte, outbuf_write_u16, outbuf_write_u32, outbuf_write_lstr,
  outbuf_write_str,
}

-- What has been written.
abbrev pub written : Outbuf → List ℕ
written buf = take buf.ptr buf.base

-- A writer that puts `bytes` at the front of any memory that has room for them.
abbrev Puts : List ℕ → (List ℕ → Option (List ℕ)) → Type 0
Puts bytes f =
    (q : List ℕ)
    → length bytes ≤ length q
    → (r : List ℕ) × (f q ≡ some (bytes ++ r)) × (length (bytes ++ r) ≡ length q)

abbrev Appended : List ℕ → ℕ → List ℕ → Option (List ℕ) → Type 0
Appended bytes ptr base o =
    (base' : List ℕ) × (o ≡ some base')
    × (take (ptr + length bytes) base' ≡ take ptr base ++ bytes)
    × (length base' ≡ length base)

append_at :
    (bytes : List ℕ) (f : List ℕ → Option (List ℕ)) (ptr : ℕ) (base : List ℕ)
    → Puts bytes f
    → ptr + length bytes ≤ length base
    → Appended bytes ptr base (write_at f ptr base)
unfolding write_at
append_at bytes f zero base puts room =
    let (r, e, size) = puts base (omega arith) in
    (bytes ++ r, e, ap (λ (n : ℕ). take n (bytes ++ r)) (omega arith) ∙ take_front bytes r, size)
append_at bytes f (suc ptr) [] puts room = absurd (omega arith)
append_at bytes f (suc ptr) (x ∷ base) puts room =
    let (base', e, same, size) = append_at bytes f ptr base puts (omega arith) in
    (
      x ∷ base',
      rw e refl,
      ap (λ (n : ℕ). take n (x ∷ base')) {x = suc ptr + length bytes} {y = suc (ptr + length bytes)}
            (omega arith)
          ∙ ap (λ l. x ∷ l) same,
      ap suc size,
    )

byte_in_front : (val : ℕ) → Puts (val ∷ []) (λ p. encode_u8 p val)
unfolding encode_u8
byte_in_front val (d0 ∷ rest) h = (rest, refl, refl)
byte_in_front val [] h = absurd (omega arith)

short_in_front : (val : ℕ) → Puts (u8 val ∷ u8 (val >>> 8) ∷ []) (λ p. encode_u16_le p val)
unfolding encode_u16_le
short_in_front val (d0 ∷ d1 ∷ rest) h = (rest, refl, refl)
short_in_front val _ h = absurd (omega arith)

word_in_front :
    (val : ℕ)
    → Puts
        (u8 val ∷ u8 (val >>> 8) ∷ u8 (val >>> 16) ∷ u8 (val >>> 24) ∷ [])
        (λ p. encode_u32_le p val)
unfolding encode_u32_le
word_in_front val (d0 ∷ d1 ∷ d2 ∷ d3 ∷ rest) h = (rest, refl, refl)
word_in_front val _ h = absurd (omega arith)

copy_in_front : (s : List ℕ) → Puts s (λ p. memcpy (length s) p s)
unfolding memcpy
copy_in_front [] q h = (q, refl, refl)
copy_in_front (b ∷ s) [] h = absurd (omega arith)
copy_in_front (b ∷ s) (d ∷ q) h =
    let (r, e, size) = copy_in_front s q (omega arith) in (r, rw e refl, ap suc size)

-- What a write of `bytes` leaves.
abbrev pub Appends : Outbuf → List ℕ → Option Outbuf → Type 0
Appends buf bytes o =
    (buf' : Outbuf) × (o ≡ some buf')
    × (written buf' ≡ written buf ++ bytes)
    × (buf'.ptr ≡ buf.ptr + length bytes)
    × (length buf'.base ≡ length buf.base)

-- A byte for which there is room is appended to what was written.
pub outbuf_write_byte-Appends :
    (buf : Outbuf) (val : ℕ)
    → buf.ptr + 1 ≤ length buf.base
    → Appends buf (val ∷ []) (outbuf_write_byte buf val)
unfolding outbuf_write_byte
outbuf_write_byte-Appends buf val room =
    let (base, e, same, size) =
      append_at (val ∷ []) (λ p. encode_u8 p val) buf.ptr buf.base (byte_in_front val) room in
    (record buf { base = base; ptr = buf.ptr + 1 }, rw e refl, same, refl, size)

-- A uint16 for which there is room is appended, its low byte first.
pub outbuf_write_u16-Appends :
    (buf : Outbuf) (val : ℕ)
    → buf.ptr + 2 ≤ length buf.base
    → Appends buf (u8 val ∷ u8 (val >>> 8) ∷ []) (outbuf_write_u16 buf val)
unfolding outbuf_write_u16
outbuf_write_u16-Appends buf val room =
    let (base, e, same, size) =
      append_at (u8 val ∷ u8 (val >>> 8) ∷ []) (λ p. encode_u16_le p val) buf.ptr buf.base
        (short_in_front val) room in
    (record buf { base = base; ptr = buf.ptr + 2 }, rw e refl, same, refl, size)

-- A uint32 for which there is room is appended, its lowest byte first.
pub outbuf_write_u32-Appends :
    (buf : Outbuf) (val : ℕ)
    → buf.ptr + 4 ≤ length buf.base
    → Appends buf
        (u8 val ∷ u8 (val >>> 8) ∷ u8 (val >>> 16) ∷ u8 (val >>> 24) ∷ [])
        (outbuf_write_u32 buf val)
unfolding outbuf_write_u32
outbuf_write_u32-Appends buf val room =
    let (base, e, same, size) =
      append_at (u8 val ∷ u8 (val >>> 8) ∷ u8 (val >>> 16) ∷ u8 (val >>> 24) ∷ [])
        (λ p. encode_u32_le p val) buf.ptr buf.base (word_in_front val) room in
    (record buf { base = base; ptr = buf.ptr + 4 }, rw e refl, same, refl, size)

-- A string for which there is room is appended with its length, as a uint16, in front.
pub outbuf_write_str-Appends :
    (buf : Outbuf) (s : List ℕ)
    → buf.ptr + 2 + length s ≤ length buf.base
    → let n = u16 (length s) in Appends buf (u8 n ∷ u8 (n >>> 8) ∷ s) (outbuf_write_str buf s)
unfolding outbuf_write_str outbuf_write_lstr
outbuf_write_str-Appends buf s room =
    let n = u16 (length s) in
    let (base1, e1, same1, size1) =
      append_at (u8 n ∷ u8 (n >>> 8) ∷ []) (λ p. encode_u16_le p n) buf.ptr buf.base
        (short_in_front n) (omega arith) in
    let (base2, e2, same2, size2) =
      append_at s (λ p. memcpy (length s) p s) (buf.ptr + 2) base1 (copy_in_front s)
        (omega arith) in
    (
      record buf { base = base2; ptr = buf.ptr + (length s + 2) },
      rw (e1, e2) refl,
      ap (λ (k : ℕ). take k base2) {x = buf.ptr + (length s + 2)} {y = buf.ptr + 2 + length s}
            (omega arith)
          ∙ same2
          ∙ ap (λ l. l ++ s) same1
          ∙ append_assoc (take buf.ptr buf.base) (u8 n ∷ u8 (n >>> 8) ∷ []) s,
      omega arith,
      size2 ∙ size1,
    )
