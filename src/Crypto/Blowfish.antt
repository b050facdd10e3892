-- ===== src/Crypto/Blowfish.antt =====
-- src/crypto/blowfish.c: the key schedule and the modes of the block cipher. A buffer is the list of
-- its bytes; `none` is an access outside it.
pub mod BoxesLow
pub mod BoxesHigh
pub mod RoundTrip
pub mod Bounds
pub mod Modes
pub mod Chaining
pub mod Chained
pub mod Total
mod Tests
use kaplarc.Base.{
  ℕ, zero, suc, ◌+◌, ◌-◌, ◌*◌, ◌/◌, ◌%◌, ◌^◌, Option, none, some, List, [], ◌∷◌, ◌++◌, take, drop,
  get_or, get_elem?, set, u32, u64, sub64, ◌<<<◌, ◌>>>◌, bit_and, bit_or, bit_xor, ◌>>=◌, ltb, leb,
  ◌==◌, if◌then◌else◌,
}
use kaplarc.Codec.Portable.{decode_u32_be, encode_u32_be}
use kaplarc.Crypto.Blowfish.BoxesLow.{box0, box1}
use kaplarc.Crypto.Blowfish.BoxesHigh.{box2, box3}

-- `struct blowfish_ctx`.
pub record Context : Type 0 where
  pub p : List ℕ
  pub s : List ℕ

-- The variables `l` and `r`, and the two words of `d`.
pub record Pair : Type 0 where
  pub l : ℕ
  pub r : ℕ

abbrev pub initial_p : List ℕ
initial_p =
    0x243f6a88 ∷ 0x85a308d3 ∷ 0x13198a2e ∷ 0x03707344 ∷ 0xa4093822 ∷ 0x299f31d0 ∷ 0x082efa98
    ∷ 0xec4e6c89 ∷ 0x452821e6 ∷ 0x38d01377 ∷ 0xbe5466cf ∷ 0x34e90c6c ∷ 0xc0ac29b7 ∷ 0xc97c50dd
    ∷ 0x3f84d5b5 ∷ 0xb5470917 ∷ 0x9216d5d9 ∷ 0x8979fb1b ∷ []

abbrev pub initial_s : List ℕ
initial_s = box0 ++ (box1 ++ (box2 ++ box3))

unfoldable pub f : Context → ℕ → ℕ
f b x =
    let high =
      u32 (get_or b.s (bit_and (x >>> 24) 0xFF) 0 + get_or b.s (bit_and (x >>> 16) 0xFF + 256) 0) in
    u32 (
      bit_xor high (get_or b.s (bit_and (x >>> 8) 0xFF + 512) 0)
      + get_or b.s (bit_and x 0xFF + 768) 0)

unfoldable pub encode_round : Context → ℕ → Pair → Pair
encode_round b i d =
    let l = bit_xor d.l (get_or b.p i 0) in
    let r = bit_xor (bit_xor d.r (f b l)) (get_or b.p (i + 1) 0) in
    record { l = bit_xor l (f b r); r = r }

unfoldable pub decode_round : Context → ℕ → Pair → Pair
decode_round b i d =
    let l = bit_xor d.l (get_or b.p (i + 1) 0) in
    let r = bit_xor (bit_xor d.r (f b l)) (get_or b.p i 0) in
    record { l = bit_xor l (f b r); r = r }

-- `for(i = 0; i < 2 * n; i += 2)`
unfoldable pub encode_rounds : Context → ℕ → Pair → Pair
encode_rounds b zero d = d
encode_rounds b (suc n) d = encode_round b (2 * n) (encode_rounds b n d)

-- `for(i = 2 * n; i > 0; i -= 2)`
unfoldable pub decode_rounds : Context → ℕ → Pair → Pair
decode_rounds b zero d = d
decode_rounds b (suc n) d = decode_rounds b n (decode_round b (2 * suc n) d)

unfoldable pub encode_one : Context → Pair → Pair
encode_one b d =
    let w = encode_rounds b 8 d in
    record { l = bit_xor w.r (get_or b.p 17 0); r = bit_xor w.l (get_or b.p 16 0) }

unfoldable pub decode_one : Context → Pair → Pair
decode_one b d =
    let w = decode_rounds b 8 d in
    record { l = bit_xor w.r (get_or b.p 0 0); r = bit_xor w.l (get_or b.p 1 0) }

-- `if(++j >= datalen) j = 0;`, where `j` is a uint32 and `datalen` a size_t.
unfoldable pub cycle : ℕ → ℕ → ℕ
cycle len j = let k = u32 (j + 1) in if leb len k then 0 else k

-- The loop of `cyclic_buffer_get_u32`: the word so far, and the position.
unfoldable pub cyclic_bytes : ℕ → List ℕ → ℕ → ℕ → ℕ → Option (ℕ × ℕ)
cyclic_bytes zero buffer len d j = some (d, j)
cyclic_bytes (suc n) buffer len d j =
    get_elem? buffer j >>= λ c. cyclic_bytes n buffer len (bit_or (u32 (d <<< 8)) c) (cycle len j)

unfoldable pub cyclic_buffer_get_u32 : List ℕ → ℕ → ℕ → Option (ℕ × ℕ)
cyclic_buffer_get_u32 buffer len current = cyclic_bytes 4 buffer len 0 current

unfoldable pub blowfish_init : Context
blowfish_init = record { p = initial_p; s = initial_s }

-- `for(i = 0; i < 18; ++i) b->P[i] ^= cyclic_buffer_get_u32(key, len, &j);`
unfoldable pub xor_key : List ℕ → List ℕ → ℕ → ℕ → Option (List ℕ)
xor_key [] key len j = some []
xor_key (x ∷ p) key len j =
    cyclic_buffer_get_u32 key len j >>= λ w. xor_key p key len w.1 >>= λ q. some (bit_xor x w.0 ∷ q)

-- The loop state: the context, the two words, and the position in the data.
pub record Schedule : Type 0 where
  pub ctx : Context
  pub d : Pair
  pub j : ℕ

-- What a round mixes into the words before it encodes them.
abbrev pub Mixer : Type 0
Mixer = Pair → ℕ → Option (Pair × ℕ)

-- `blowfish_expandkey` mixes nothing in.
unfoldable pub no_salt : Mixer
no_salt d j = some (d, j)

-- `d[0] ^= cyclic_buffer_get_u32(data, datalen, &j); d[1] ^= …`
unfoldable pub mix_salt : List ℕ → ℕ → Mixer
mix_salt salt len d j = cyclic_buffer_get_u32 salt len j >>= λ w.
    cyclic_buffer_get_u32 salt len w.1 >>= λ v.
    some (record { l = bit_xor d.l w.0; r = bit_xor d.r v.0 }, v.1)

unfoldable pub schedule_p : Mixer → ℕ → Schedule → Option Schedule
schedule_p mix i st = mix st.d st.j >>= λ m.
    let e = encode_one st.ctx m.0 in
    some (record {
      ctx = record { p = set (set st.ctx.p i e.l) (i + 1) e.r; s = st.ctx.s };
      d = e;
      j = m.1;
    })

unfoldable pub schedule_s : Mixer → ℕ → Schedule → Option Schedule
schedule_s mix i st = mix st.d st.j >>= λ m.
    let e = encode_one st.ctx m.0 in
    some (record {
      ctx = record { p = st.ctx.p; s = set (set st.ctx.s i e.l) (i + 1) e.r };
      d = e;
      j = m.1;
    })

-- `for(i = 0; i < 2 * n; i += 2)` over a step that may fail.
unfoldable pub in_pairs : (ℕ → Schedule → Option Schedule) → ℕ → Schedule → Option Schedule
in_pairs body zero st = some st
in_pairs body (suc n) st = in_pairs body n st >>= body (2 * n)

-- Both `blowfish_expandkey` and `blowfish_expandkey1`, which differ in what they mix in.
unfoldable pub expand : Mixer → Context → List ℕ → ℕ → Option Context
expand mix b key len = xor_key b.p key len 0 >>= λ p.
    in_pairs (schedule_p mix) 9
      (record { ctx = record { p = p; s = b.s }; d = record { l = 0; r = 0 }; j = 0 })
    >>= λ st. in_pairs (schedule_s mix) 512 st >>= λ e. some e.ctx

unfoldable pub blowfish_expandkey : Context → List ℕ → ℕ → Option Context
blowfish_expandkey b key len = expand no_salt b key len

unfoldable pub blowfish_expandkey1 : Context → List ℕ → ℕ → List ℕ → ℕ → Option Context
blowfish_expandkey1 b key keylen salt saltlen = expand (mix_salt salt saltlen) b key keylen

unfoldable pub blowfish_setkey : List ℕ → ℕ → Option Context
blowfish_setkey key len = blowfish_expandkey blowfish_init key len

unfoldable pub round_to_8 : ℕ → ℕ
round_to_8 len = u64 (len + 7) / 8 * 8

-- The two words at `data` and `data + 4`.
unfoldable pub load_pair : List ℕ → Option Pair
load_pair p =
    decode_u32_be p >>= λ l. decode_u32_be (drop 4 p) >>= λ r. some (record { l = l; r = r })

-- `encode_u32_be(data, d[0]); encode_u32_be(data, d[1]);`, both at `data`.
unfoldable pub store_pair : List ℕ → Pair → Option (List ℕ)
store_pair p d = encode_u32_be p d.l >>= λ q. encode_u32_be q d.r

-- `for(i = 0; i < n; i++) encode_one(b, d);`
unfoldable pub encode_times : Context → ℕ → Pair → Pair
encode_times b zero d = d
encode_times b (suc n) d = encode_times b n (encode_one b d)

unfoldable pub code_block : (Pair → Pair) → List ℕ → Option (List ℕ)
code_block code p = load_pair p >>= λ d. store_pair p (code d)

-- `while(len > 0)`, eight bytes at a time, of the three loops that differ in the code alone.
unfoldable pub ecb_loop : (Pair → Pair) → List ℕ → ℕ → Option (List ℕ)
ecb_loop code (b0 ∷ b1 ∷ b2 ∷ b3 ∷ b4 ∷ b5 ∷ b6 ∷ b7 ∷ p) len =
    let rest = ecb_loop code p (sub64 len 8) in
    if len == 0
    then some (b0 ∷ b1 ∷ b2 ∷ b3 ∷ b4 ∷ b5 ∷ b6 ∷ b7 ∷ p)
    else (code_block code (b0 ∷ b1 ∷ b2 ∷ b3 ∷ b4 ∷ b5 ∷ b6 ∷ b7 ∷ []) >>= λ q.
        rest >>= λ r. some (q ++ r))
ecb_loop code p len = if len == 0 then some p else none

unfoldable pub blowfish_ecb_encode : Context → List ℕ → ℕ → Option (List ℕ)
blowfish_ecb_encode b buffer len = ecb_loop (encode_one b) buffer (round_to_8 len)

unfoldable pub blowfish_ecb_decode : Context → List ℕ → ℕ → Option (List ℕ)
blowfish_ecb_decode b buffer len = ecb_loop (decode_one b) buffer (round_to_8 len)

unfoldable pub blowfish_ecb_encode_n : Context → ℕ → List ℕ → ℕ → Option (List ℕ)
blowfish_ecb_encode_n b n buffer len = ecb_loop (encode_times b n) buffer (round_to_8 len)
