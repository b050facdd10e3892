-- ===== src/Protocol/Login/Deliver.antt =====
-- What the client reads of a message that src/protocol_login.c has wrapped.
use kaplarc.Base.{
  ℕ, ◌+◌, ◌-◌, ◌%◌, ◌^◌, ◌≤◌, ◌<◌, ◌≡◌, refl, sym, ap, ◌∙◌, arith, some, List, ◌∷◌, ◌++◌, All,
  All-append, All-replicate, All-drop, length, length-append, length-drop, length-replicate, take,
  take_front, drop, replicate, u8, u16, sub32, bit_and, ◌>>>◌,
}
use kaplarc.Checksum.Adler.{adler32}
use kaplarc.Checksum.Adler.Spec.{adler32-lt}
use kaplarc.Codec.Portable.{encode_u16_le, encode_u32_le, decode_u16_le, decode_u32_le}
use kaplarc.Codec.Portable.Digits.{decode_u16_le_digits, decode_u32_le_digits}
use kaplarc.Crypto.Xtea.{xtea_encode, xtea_decode}
use kaplarc.Crypto.Xtea.RoundTrip.{xtea_decode-xtea_encode}
use kaplarc.Memory.Outbuf.{Outbuf, write_at}
use kaplarc.Protocol.Login.{pad, add_header, outbuf_wrap}
use kaplarc.Protocol.Login.Wrap.{pad-append, padding_lem}

-- A finished message, read from the front as a client reads it: the length of what follows it, a
-- checksum that is right, and blocks that decode to `body` behind its own length.
pub record Delivers (xtea body : List ℕ) (buf : Outbuf) : Type 0 where
  pub whole_blocks : buf.ptr % 8 ≡ 6
  pub fits : buf.ptr ≤ length buf.base
  pub counted : decode_u16_le buf.base ≡ some (buf.ptr - 2)
  pub checked :
      (sum : ℕ) × (decode_u32_le (drop 2 buf.base) ≡ some sum)
      × (adler32 (drop 6 buf.base) (buf.ptr - 6) ≡ some sum)
  pub decoded :
      (plain : List ℕ) × (xtea_decode xtea (drop 6 buf.base) (buf.ptr - 6) ≡ some plain)
      × (decode_u16_le plain ≡ some (length body))
      × (take (length body) (drop 2 plain) ≡ body)

-- The header in front of the blocks `c`.
add_header_lem :
    (h0 h1 h2 h3 h4 h5 len sum : ℕ) (c : List ℕ)
    → len + 4 < 2 ^ 16
    → adler32 c len ≡ some sum
    → sum < 2 ^ 32
    → (base : List ℕ) × (add_header (h0 ∷ h1 ∷ h2 ∷ h3 ∷ h4 ∷ h5 ∷ c) len ≡ some base)
      × (decode_u16_le base ≡ some (len + 4))
      × (decode_u32_le (drop 2 base) ≡ some sum)
      × (drop 6 base ≡ c)
      × (length base ≡ length c + 6)
unfolding add_header write_at encode_u16_le encode_u32_le
add_header_lem h0 h1 h2 h3 h4 h5 len sum c short e fits = (
  u8 (u16 (len + 4))
      ∷ u8 (u16 (len + 4) >>> 8)
      ∷ u8 sum
      ∷ u8 (sum >>> 8)
      ∷ u8 (sum >>> 16)
      ∷ u8 (sum >>> 24)
      ∷ c,
  rw e refl,
  decode_u16_le_digits _ _ _ (omega arith) ∙ ap some (omega arith),
  decode_u32_le_digits _ _ _ _ _ (omega arith) ∙ ap some (omega arith),
  refl,
  omega arith,
)

-- The padding completes the last block.
padding-whole : (n : ℕ) → (n + 2 + (8 - (n + 2) % 8) % 8) % 8 ≡ 0
padding-whole n = omega arith

padded_size :
    (k : ℕ) (body rest : List ℕ)
    → k ≤ length rest
    → length (body ++ (replicate k 0x33 ++ drop k rest)) ≡ length body + length rest
padded_size k body rest room = omega (
  arith,
  length-append body (replicate k 0x33 ++ drop k rest),
  length-append (replicate k 0x33) (drop k rest),
  length-replicate {A = ℕ} k 0x33,
  length-drop k rest,
)

padded-bytes :
    (k : ℕ) (body rest : List ℕ)
    → All (λ b. b < 256) body
    → All (λ b. b < 256) rest
    → All (λ b. b < 256) (body ++ (replicate k 0x33 ++ drop k rest))
padded-bytes k body rest bytes others = All-append _ body (replicate k 0x33 ++ drop k rest) bytes (
    All-append _ (replicate k 0x33) (drop k rest) (All-replicate _ k 0x33 (omega arith))
      (All-drop _ k rest others))

abbrev pub Wrapped : List ℕ → List ℕ → Outbuf → Type 0
Wrapped xtea body buf =
    (buf' : Outbuf) × (outbuf_wrap buf xtea ≡ some buf')
    × Delivers xtea body buf'
    × (length buf'.base ≡ length buf.base)
    × (buf'.ptr ≤ buf.ptr + 7)

-- The blocks, of `len` bytes, that encode `body` behind its length, under a right header.
delivered :
    (xtea body more c base : List ℕ) (sum len : ℕ)
    → length body < 2 ^ 16
    → len % 8 ≡ 0
    → len ≤ length c
    → length base ≡ length c + 6
    → decode_u16_le base ≡ some (len + 4)
    → decode_u32_le (drop 2 base) ≡ some sum
    → drop 6 base ≡ c
    → adler32 c len ≡ some sum
    → xtea_decode xtea c len
      ≡ some (u8 (u16 (length body)) ∷ u8 (u16 (length body) >>> 8) ∷ (body ++ more))
    → Delivers xtea body (record { ptr = len + 6; base = base })
delivered xtea body more c base sum len short whole room size counted checked blocks summed
      decoded =
    let same : (len + 6) - 6 ≡ len = omega arith in
    record {
      whole_blocks = omega arith;
      fits = omega arith;
      counted = counted ∙ ap some (omega arith);
      checked = (sum, checked, rw (same, blocks) summed);
      decoded = (
        u8 (u16 (length body)) ∷ u8 (u16 (length body) >>> 8) ∷ (body ++ more),
        rw (same, blocks) decoded,
        decode_u16_le_digits _ _ _ (omega arith) ∙ ap some (omega arith),
        take_front body more,
      );
    }

-- `outbuf_wrap`, given what its calls answer.
wrap_steps :
    (buf padded : Outbuf) (xtea counted encoded headed : List ℕ) (datalen padding : ℕ)
    → sub32 buf.ptr 6 ≡ datalen
    → bit_and (8 - bit_and datalen 7) 7 ≡ padding
    → write_at (λ p. encode_u16_le p (u16 (sub32 datalen 2))) 6 buf.base ≡ some counted
    → pad padding (record buf { base = counted }) ≡ some padded
    → write_at (λ p. xtea_encode xtea p (datalen + padding)) 6 padded.base ≡ some encoded
    → add_header encoded (datalen + padding) ≡ some headed
    → outbuf_wrap buf xtea ≡ some (record padded { base = headed })
unfolding outbuf_wrap
wrap_steps buf padded xtea counted encoded headed datalen padding e1 e2 e3 e4 e5 e6 =
    rw (e1, e2, e3, e4, e5, e6) refl

-- The length of the message, in front of it.
counted_lem :
    (h0 h1 h2 h3 h4 h5 h6 h7 n : ℕ) (q : List ℕ)
    → n + 2 < 2 ^ 32
    → write_at
        (λ p. encode_u16_le p (u16 (sub32 (n + 2) 2)))
        6
        (h0 ∷ h1 ∷ h2 ∷ h3 ∷ h4 ∷ h5 ∷ h6 ∷ h7 ∷ q)
      ≡ some (h0 ∷ h1 ∷ h2 ∷ h3 ∷ h4 ∷ h5 ∷ u8 (u16 n) ∷ u8 (u16 n >>> 8) ∷ q)
unfolding write_at encode_u16_le
counted_lem h0 h1 h2 h3 h4 h5 h6 h7 n q small =
    ap (λ (v : ℕ). some (h0 ∷ h1 ∷ h2 ∷ h3 ∷ h4 ∷ h5 ∷ u8 (u16 v) ∷ u8 (u16 v >>> 8) ∷ q))
      {x = sub32 (n + 2) 2} {y = n} (omega arith)

padded_lem :
    (h0 h1 h2 h3 h4 h5 h6 h7 k : ℕ) (body rest : List ℕ)
    → k ≤ length rest
    → pad k (record {
      ptr = length body + 8;
      base = h0 ∷ h1 ∷ h2 ∷ h3 ∷ h4 ∷ h5 ∷ h6 ∷ h7 ∷ (body ++ rest);
    })
      ≡ some (record {
        ptr = length body + 8 + k;
        base = h0 ∷ h1 ∷ h2 ∷ h3 ∷ h4 ∷ h5 ∷ h6 ∷ h7 ∷ (body ++ (replicate k 0x33 ++ drop k rest));
      })
padded_lem h0 h1 h2 h3 h4 h5 h6 h7 k body rest room =
    let front : List ℕ = h0 ∷ h1 ∷ h2 ∷ h3 ∷ h4 ∷ h5 ∷ h6 ∷ h7 ∷ body in
    let size : length body + 8 ≡ length front = omega arith in
    ap (λ (p : ℕ). pad k (record { ptr = p; base = front ++ rest })) size
    ∙ pad-append k front rest room
    ∙ ap
        (λ (p : ℕ).
          some (record { ptr = p + k; base = front ++ (replicate k 0x33 ++ drop k rest) }))
        (sym size)

-- A message of bytes `body` that stands behind the eight bytes of the header, in a buffer of less
-- than 2 ^ 16 bytes with room for seven more, is wrapped in place, and the client that has the key
-- reads it back: the length and the checksum in front of the blocks are right, and the blocks decode
-- to `body` behind its length.
pub outbuf_wrap_lem :
    (xtea body rest : List ℕ) (h0 h1 h2 h3 h4 h5 h6 h7 : ℕ)
    → All (λ b. b < 256) body
    → All (λ b. b < 256) rest
    → 7 ≤ length rest
    → length body + length rest + 8 < 2 ^ 16
    → Wrapped xtea body (record {
      ptr = length body + 8;
      base = h0 ∷ h1 ∷ h2 ∷ h3 ∷ h4 ∷ h5 ∷ h6 ∷ h7 ∷ (body ++ rest);
    })
unfolding write_at encode_u16_le
outbuf_wrap_lem xtea body rest h0 h1 h2 h3 h4 h5 h6 h7 bytes others room small =
    let n = length body in
    let k = (8 - (n + 2) % 8) % 8 in
    let len = n + 2 + k in
    let lo = u8 (u16 n) in
    let hi = u8 (u16 n >>> 8) in
    let more = replicate k 0x33 ++ drop k rest in
    let size = padded_size k body rest (omega arith) in
    let all_bytes = padded-bytes k body rest bytes others in
    let (c, enc, dec, csize, cbytes) =
      xtea_decode-xtea_encode xtea (lo ∷ hi ∷ (body ++ more)) len
        (omega arith, (omega arith, all_bytes)) (padding-whole n) (omega (arith, size))
        (omega arith) in
    let (sum, summed, sum_lt) = adler32-lt c len (omega (arith, size, csize)) cbytes in
    let (base, headed, counted, checked, blocks, bsize) =
      add_header_lem h0 h1 h2 h3 h4 h5 len sum c (omega arith) summed sum_lt in
    let wrapped : outbuf_wrap
          (record { ptr = n + 8; base = h0 ∷ h1 ∷ h2 ∷ h3 ∷ h4 ∷ h5 ∷ h6 ∷ h7 ∷ (body ++ rest) })
          xtea
        ≡ some (record { ptr = n + 8 + k; base = base }) =
      wrap_steps _ _ xtea (h0 ∷ h1 ∷ h2 ∷ h3 ∷ h4 ∷ h5 ∷ lo ∷ hi ∷ (body ++ rest))
        (h0 ∷ h1 ∷ h2 ∷ h3 ∷ h4 ∷ h5 ∷ c) base (n + 2) k (omega arith) (padding_lem (n + 2))
        (counted_lem h0 h1 h2 h3 h4 h5 h6 h7 n (body ++ rest) (omega arith))
        (padded_lem h0 h1 h2 h3 h4 h5 lo hi k body rest (omega arith)) (rw enc refl) headed in
    (
      record { ptr = len + 6; base = base },
      wrapped ∙ ap (λ (p : ℕ). some (record { ptr = p; base = base })) (omega arith),
      delivered xtea body more c base sum len (omega arith) (padding-whole n)
          (omega (arith, size, csize)) bsize counted checked blocks summed dec,
      omega (arith, size, csize, bsize, length-append body rest),
      omega arith,
    )
