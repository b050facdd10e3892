-- ===== src/Memory/Outbuf.antt =====
-- src/outbuf.c and src/outbuf.h: output buffers, written from the front, and the list of idle ones.
pub mod Write
pub mod Idle
mod Tests
use kaplarc.Base.{
  ℕ, zero, suc, ◌+◌, ◌-◌, ◌*◌, ◌%◌, ◌^◌, Option, none, some, List, [], ◌∷◌, length, u16, ltb,
  if◌then◌else◌, ◌>>=◌,
}
use kaplarc.Codec.Portable.{encode_u8, encode_u16_le, encode_u32_le}
use kaplarc.Codec.TibiaString.{memcpy}

-- 16384 - 2*sizeof(void*)
abbrev pub max_outbuf_len : ℕ
max_outbuf_len = 16368

abbrev pub max_idle_outbufs : ℕ
max_idle_outbufs = 2048

-- `struct outbuf` without its link: `ptr` is the offset from `base`.
pub record Outbuf : Type 0 where
  pub ptr : ℕ
  pub base : List ℕ

unfoldable pub outbuf_data : Outbuf → List ℕ
outbuf_data buf = buf.base

unfoldable pub outbuf_len : Outbuf → ℕ
outbuf_len buf = buf.ptr

-- A writer applied at an offset of the memory; `none` is an access outside it.
unfoldable pub write_at : (List ℕ → Option (List ℕ)) → ℕ → List ℕ → Option (List ℕ)
write_at f zero base = f base
write_at f (suc ptr) [] = none
write_at f (suc ptr) (x ∷ base) = write_at f ptr base >>= λ rest. some (x ∷ rest)

unfoldable pub outbuf_write_byte : Outbuf → ℕ → Option Outbuf
outbuf_write_byte buf val = write_at (λ p. encode_u8 p val) buf.ptr buf.base >>= λ base.
    some (record buf { base = base; ptr = buf.ptr + 1 })

unfoldable pub outbuf_write_u16 : Outbuf → ℕ → Option Outbuf
outbuf_write_u16 buf val = write_at (λ p. encode_u16_le p val) buf.ptr buf.base >>= λ base.
    some (record buf { base = base; ptr = buf.ptr + 2 })

unfoldable pub outbuf_write_u32 : Outbuf → ℕ → Option Outbuf
outbuf_write_u32 buf val = write_at (λ p. encode_u32_le p val) buf.ptr buf.base >>= λ base.
    some (record buf { base = base; ptr = buf.ptr + 4 })

-- The bytes of `s`, whose length `len` is not negative: a `memcpy` of nothing writes nothing.
unfoldable pub outbuf_write_lstr : Outbuf → List ℕ → ℕ → Option Outbuf
outbuf_write_lstr buf s len =
    write_at (λ p. encode_u16_le p (u16 len)) buf.ptr buf.base >>= λ base1.
    write_at (λ p. memcpy len p s) (buf.ptr + 2) base1 >>= λ base2.
    some (record buf { base = base2; ptr = buf.ptr + (len + 2) })

-- A C string without its NUL.
unfoldable pub outbuf_write_str : Outbuf → List ℕ → Option Outbuf
outbuf_write_str buf s = outbuf_write_lstr buf s (length s)

-- The list of idle buffers, by their addresses, and its length.
pub record Pool : Type 0 where
  pub outbuf_list_size : ℕ
  pub outbuf_head : List ℕ

-- `fresh` is what `malloc` gives when the list is empty.
unfoldable pub outbuf_acquire : Pool → ℕ → ℕ × Pool
outbuf_acquire pool fresh = elim pool.outbuf_head [
  | [] ↦ (fresh, pool)
  | buf ∷ rest ↦ (buf, record { outbuf_list_size = pool.outbuf_list_size - 1; outbuf_head = rest })
]

-- The pool, and the buffer that is freed, if any.
unfoldable pub outbuf_release : Pool → ℕ → Option ℕ × Pool
outbuf_release pool buf =
    if ltb pool.outbuf_list_size max_idle_outbufs
    then (
      none,
      record { outbuf_list_size = pool.outbuf_list_size + 1; outbuf_head = buf ∷ pool.outbuf_head },
    )
    else (some buf, pool)
