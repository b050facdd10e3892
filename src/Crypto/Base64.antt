-- ===== src/Crypto/Base64.antt =====
-- src/crypto/base64.c. A pointer into a buffer is the list of bytes from there on; `none` is a read
-- past its end.
pub mod Tables
pub mod RoundTrip
pub mod Text
mod Tests
use kaplarc.Base.{
  ℕ, zero, suc, ◌/◌, ◌%◌, ◌*◌, ◌^◌, Bool, true, false, ◌||◌, Option, none, some, List, [], ◌∷◌, u8,
  ◌<<<◌, ◌>>>◌, bit_and, bit_or, get_or, ◌==◌, if◌then◌else◌, ◌>>=◌,
}

-- `base64`: "./", the upper case letters, the lower case letters, the digits.
abbrev pub alphabet : List ℕ
alphabet =
    46 ∷ 47 ∷ 65 ∷ 66 ∷ 67 ∷ 68 ∷ 69 ∷ 70 ∷ 71 ∷ 72 ∷ 73 ∷ 74 ∷ 75 ∷ 76 ∷ 77 ∷ 78 ∷ 79 ∷ 80 ∷ 81
    ∷ 82 ∷ 83 ∷ 84 ∷ 85 ∷ 86 ∷ 87 ∷ 88 ∷ 89 ∷ 90 ∷ 97 ∷ 98 ∷ 99 ∷ 100 ∷ 101 ∷ 102 ∷ 103 ∷ 104 ∷ 105
    ∷ 106 ∷ 107 ∷ 108 ∷ 109 ∷ 110 ∷ 111 ∷ 112 ∷ 113 ∷ 114 ∷ 115 ∷ 116 ∷ 117 ∷ 118 ∷ 119 ∷ 120 ∷ 121
    ∷ 122 ∷ 48 ∷ 49 ∷ 50 ∷ 51 ∷ 52 ∷ 53 ∷ 54 ∷ 55 ∷ 56 ∷ 57 ∷ []

-- `decode64`.
abbrev pub decode_table : List ℕ
decode_table =
    0xFF ∷ 0xFF ∷ 0xFF ∷ 0xFF ∷ 0xFF ∷ 0xFF ∷ 0xFF ∷ 0xFF ∷ 0xFF ∷ 0xFF ∷ 0xFF ∷ 0xFF ∷ 0xFF ∷ 0xFF
    ∷ 0xFF ∷ 0xFF ∷ 0xFF ∷ 0xFF ∷ 0xFF ∷ 0xFF ∷ 0xFF ∷ 0xFF ∷ 0xFF ∷ 0xFF ∷ 0xFF ∷ 0xFF ∷ 0xFF
    ∷ 0xFF ∷ 0xFF ∷ 0xFF ∷ 0xFF ∷ 0xFF ∷ 0xFF ∷ 0xFF ∷ 0xFF ∷ 0xFF ∷ 0xFF ∷ 0xFF ∷ 0xFF ∷ 0xFF
    ∷ 0xFF ∷ 0xFF ∷ 0xFF ∷ 0xFF ∷ 0xFF ∷ 0xFF ∷ 0x00 ∷ 0x01 ∷ 0x36 ∷ 0x37 ∷ 0x38 ∷ 0x39 ∷ 0x3A
    ∷ 0x3B ∷ 0x3C ∷ 0x3D ∷ 0x3E ∷ 0x3F ∷ 0xFF ∷ 0xFF ∷ 0xFF ∷ 0xFF ∷ 0xFF ∷ 0xFF ∷ 0xFF ∷ 0x02
    ∷ 0x03 ∷ 0x04 ∷ 0x05 ∷ 0x06 ∷ 0x07 ∷ 0x08 ∷ 0x09 ∷ 0x0A ∷ 0x0B ∷ 0x0C ∷ 0x0D ∷ 0x0E ∷ 0x0F
    ∷ 0x10 ∷ 0x11 ∷ 0x12 ∷ 0x13 ∷ 0x14 ∷ 0x15 ∷ 0x16 ∷ 0x17 ∷ 0x18 ∷ 0x19 ∷ 0x1A ∷ 0x1B ∷ 0xFF
    ∷ 0xFF ∷ 0xFF ∷ 0xFF ∷ 0xFF ∷ 0xFF ∷ 0x1C ∷ 0x1D ∷ 0x1E ∷ 0x1F ∷ 0x20 ∷ 0x21 ∷ 0x22 ∷ 0x23
    ∷ 0x24 ∷ 0x25 ∷ 0x26 ∷ 0x27 ∷ 0x28 ∷ 0x29 ∷ 0x2A ∷ 0x2B ∷ 0x2C ∷ 0x2D ∷ 0x2E ∷ 0x2F ∷ 0x30
    ∷ 0x31 ∷ 0x32 ∷ 0x33 ∷ 0x34 ∷ 0x35 ∷ 0xFF ∷ 0xFF ∷ 0xFF ∷ 0xFF ∷ 0xFF ∷ 0xFF ∷ 0xFF ∷ 0xFF
    ∷ 0xFF ∷ 0xFF ∷ 0xFF ∷ 0xFF ∷ 0xFF ∷ 0xFF ∷ 0xFF ∷ 0xFF ∷ 0xFF ∷ 0xFF ∷ 0xFF ∷ 0xFF ∷ 0xFF
    ∷ 0xFF ∷ 0xFF ∷ 0xFF ∷ 0xFF ∷ 0xFF ∷ 0xFF ∷ 0xFF ∷ 0xFF ∷ 0xFF ∷ 0xFF ∷ 0xFF ∷ 0xFF ∷ 0xFF
    ∷ 0xFF ∷ 0xFF ∷ 0xFF ∷ 0xFF ∷ 0xFF ∷ 0xFF ∷ 0xFF ∷ 0xFF ∷ 0xFF ∷ 0xFF ∷ 0xFF ∷ 0xFF ∷ 0xFF
    ∷ 0xFF ∷ 0xFF ∷ 0xFF ∷ 0xFF ∷ 0xFF ∷ 0xFF ∷ 0xFF ∷ 0xFF ∷ 0xFF ∷ 0xFF ∷ 0xFF ∷ 0xFF ∷ 0xFF
    ∷ 0xFF ∷ 0xFF ∷ 0xFF ∷ 0xFF ∷ 0xFF ∷ 0xFF ∷ 0xFF ∷ 0xFF ∷ 0xFF ∷ 0xFF ∷ 0xFF ∷ 0xFF ∷ 0xFF
    ∷ 0xFF ∷ 0xFF ∷ 0xFF ∷ 0xFF ∷ 0xFF ∷ 0xFF ∷ 0xFF ∷ 0xFF ∷ 0xFF ∷ 0xFF ∷ 0xFF ∷ 0xFF ∷ 0xFF
    ∷ 0xFF ∷ 0xFF ∷ 0xFF ∷ 0xFF ∷ 0xFF ∷ 0xFF ∷ 0xFF ∷ 0xFF ∷ 0xFF ∷ 0xFF ∷ 0xFF ∷ 0xFF ∷ 0xFF
    ∷ 0xFF ∷ 0xFF ∷ 0xFF ∷ 0xFF ∷ 0xFF ∷ 0xFF ∷ 0xFF ∷ 0xFF ∷ 0xFF ∷ 0xFF ∷ 0xFF ∷ 0xFF ∷ 0xFF
    ∷ 0xFF ∷ 0xFF ∷ 0xFF ∷ 0xFF ∷ 0xFF ∷ 0xFF ∷ 0xFF ∷ 0xFF ∷ 0xFF ∷ 0xFF ∷ 0xFF ∷ 0xFF ∷ 0xFF
    ∷ 0xFF ∷ 0xFF ∷ 0xFF ∷ 0xFF ∷ 0xFF ∷ 0xFF ∷ 0xFF ∷ 0xFF ∷ []

-- base64[i], for an index of six bits.
unfoldable pub base64 : ℕ → ℕ
base64 i = get_or alphabet i 0

-- decode64[c], for a byte.
unfoldable pub decode64 : ℕ → ℕ
decode64 c = get_or decode_table c 0xFF

-- The switch on `len % 3`, and the terminating NUL.
unfoldable pub encode_rest : ℕ → List ℕ → Option (List ℕ)
encode_rest (suc zero) (p0 ∷ p) = some (base64 (p0 >>> 2) ∷ base64 (bit_and p0 0x03 <<< 4) ∷ 0 ∷ [])
encode_rest (suc (suc zero)) (p0 ∷ p1 ∷ p) = some (
    base64 (p0 >>> 2)
    ∷ base64 (bit_or (bit_and p0 0x03 <<< 4) (bit_and (p1 >>> 4) 0x0F))
    ∷ base64 (bit_and p1 0x0F <<< 2)
    ∷ 0
    ∷ [])
encode_rest (suc zero) [] = none
encode_rest (suc (suc zero)) p = none
encode_rest r p = some (0 ∷ [])

-- The loop over `n` groups of three bytes.
unfoldable pub encode_groups : ℕ → ℕ → List ℕ → Option (List ℕ)
encode_groups zero r p = encode_rest r p
encode_groups (suc n) r (p0 ∷ p1 ∷ p2 ∷ p) = encode_groups n r p >>= λ out. some (
    base64 (p0 >>> 2)
    ∷ base64 (bit_or (bit_and p0 0x03 <<< 4) (bit_and (p1 >>> 4) 0x0F))
    ∷ base64 (bit_or (bit_and p1 0x0F <<< 2) (bit_and (p2 >>> 6) 0x03))
    ∷ base64 (bit_and p2 0x3F)
    ∷ out)
encode_groups (suc n) r p = none

unfoldable pub base64_encode : List ℕ → ℕ → Option (List ℕ)
unfolding encode_groups
base64_encode input len = encode_groups (len / 3) (len % 3) input

abbrev pub bad : ℕ → Bool
bad c = c == 0xFF

abbrev pub byte0 : ℕ → ℕ → ℕ
byte0 c1 c2 = u8 (bit_or (c1 <<< 2) (bit_and (c2 >>> 4) 0x03))

abbrev pub byte1 : ℕ → ℕ → ℕ
byte1 c2 c3 = u8 (bit_or (bit_and c2 0x0F <<< 4) (bit_and (c3 >>> 2) 0x0F))

abbrev pub byte2 : ℕ → ℕ → ℕ
byte2 c3 c4 = u8 (bit_or (bit_and c3 0x03 <<< 6) c4)

-- The answer of the decoder, and the bytes that it has written.
unfoldable pub decode_rest : ℕ → List ℕ → Option (Bool × List ℕ)
decode_rest (suc zero) (p0 ∷ p1 ∷ p) =
    let c1 = decode64 p0 in
    let c2 = decode64 p1 in
    some (if bad c1 || bad c2 then (false, []) else (true, byte0 c1 c2 ∷ []))
decode_rest (suc (suc zero)) (p0 ∷ p1 ∷ p2 ∷ p) =
    let c1 = decode64 p0 in
    let c2 = decode64 p1 in
    let c3 = decode64 p2 in
    some
      (if bad c1 || bad c2 || bad c3 then (false, []) else (true, byte0 c1 c2 ∷ byte1 c2 c3 ∷ []))
decode_rest (suc zero) p = none
decode_rest (suc (suc zero)) p = none
decode_rest r p = some (true, [])

unfoldable pub decode_groups : ℕ → ℕ → List ℕ → Option (Bool × List ℕ)
decode_groups zero r p = decode_rest r p
decode_groups (suc n) r (p0 ∷ p1 ∷ p2 ∷ p3 ∷ p) =
    let c1 = decode64 p0 in
    let c2 = decode64 p1 in
    let c3 = decode64 p2 in
    let c4 = decode64 p3 in
    let rest = decode_groups n r p in
    if bad c1 || bad c2 || bad c3 || bad c4
    then some (false, [])
    else (rest >>= λ d. some (d.0, byte0 c1 c2 ∷ byte1 c2 c3 ∷ byte2 c3 c4 ∷ d.1))
decode_groups (suc n) r p = none

unfoldable pub base64_decode : ℕ → List ℕ → Option (Bool × List ℕ)
unfolding decode_groups
base64_decode len b64data = decode_groups (len / 3) (len % 3) b64data
