-- ===== src/Protocol/Login/Disconnect.antt =====
-- The message with which src/protocol_login.c turns a client away.
use kaplarc.Base.{
  ℕ, ◌+◌, ◌^◌, ◌≤◌, ◌<◌, ◌≡◌, refl, ap, arith, some, List, [], ◌∷◌, ◌++◌, All, All-drop, length,
  length-drop, drop, u8, u16, ◌>>=◌, ◌>>>◌,
}
use kaplarc.Codec.Portable.{encode_u8, encode_u16_le}
use kaplarc.Codec.TibiaString.{memcpy}
use kaplarc.Memory.Outbuf.{Outbuf, write_at, outbuf_write_byte, outbuf_write_str, outbuf_write_lstr}
use kaplarc.Protocol.Login.{LoginInfo, outbuf_prepare, build_disconnect_message}
use kaplarc.Protocol.Login.Deliver.{Delivers, outbuf_wrap_lem}

memcpy_front :
    (s q : List ℕ) → length s ≤ length q → memcpy (length s) q s ≡ some (s ++ drop (length s) q)
unfolding memcpy
memcpy_front [] q h = refl
memcpy_front (b ∷ s) [] h = absurd (omega arith)
memcpy_front (b ∷ s) (d ∷ q) h = rw (memcpy_front s q (omega arith)) refl

-- The bytes of a disconnect message: its kind, then the text behind its length.
abbrev pub disconnect_body : List ℕ → List ℕ
disconnect_body s = 0x0A ∷ u8 (u16 (length s)) ∷ u8 (u16 (length s) >>> 8) ∷ s

-- What is written behind the room for the header.
write_body :
    (h0 h1 h2 h3 h4 h5 h6 h7 d0 d1 d2 ptr : ℕ) (q s : List ℕ)
    → length s ≤ length q
    → (outbuf_write_byte
          (outbuf_prepare
            (record { ptr = ptr; base = h0 ∷ h1 ∷ h2 ∷ h3 ∷ h4 ∷ h5 ∷ h6 ∷ h7 ∷ d0 ∷ d1 ∷ d2 ∷ q }))
          0x0A
        >>= λ buf. outbuf_write_str buf s)
      ≡ some (record {
        ptr = length (disconnect_body s) + 8;
        base = h0 ∷ h1 ∷ h2 ∷ h3 ∷ h4 ∷ h5 ∷ h6 ∷ h7 ∷ (disconnect_body s ++ drop (length s) q);
      })
unfolding outbuf_write_byte outbuf_write_str outbuf_write_lstr outbuf_prepare write_at encode_u8
    encode_u16_le
write_body h0 h1 h2 h3 h4 h5 h6 h7 d0 d1 d2 ptr q s room = rw (memcpy_front s q room) (
    ap
      (λ (p : ℕ). some (record {
        ptr = p;
        base = h0 ∷ h1 ∷ h2 ∷ h3 ∷ h4 ∷ h5 ∷ h6 ∷ h7 ∷ (disconnect_body s ++ drop (length s) q);
      }))
      (omega arith))

-- A fresh buffer of bytes, of less than 2 ^ 16, with room for the text, its length, the header and
-- the padding, becomes the login's output, and the client reads back the kind of the message and the
-- text behind its length.
pub build_disconnect_message_lem :
    (login : LoginInfo) (s base : List ℕ) (ptr : ℕ)
    → All (λ b. b < 256) base
    → All (λ b. b < 256) s
    → length s + 18 ≤ length base
    → length base < 2 ^ 16
    → (buf : Outbuf) × (build_disconnect_message (record { ptr = ptr; base = base }) login s
        ≡ some (record login { output = some buf }))
      × Delivers login.xtea (disconnect_body s) buf
unfolding build_disconnect_message outbuf_write_byte write_at outbuf_prepare encode_u8
build_disconnect_message_lem login s (h0 ∷ h1 ∷ h2 ∷ h3 ∷ h4 ∷ h5 ∷ h6 ∷ h7 ∷ d0 ∷ d1 ∷ d2 ∷ q) ptr
      bytes text room small =
    let (buf, wrapped, delivers, _, _) =
      outbuf_wrap_lem login.xtea (disconnect_body s) (drop (length s) q) h0 h1 h2 h3 h4 h5 h6 h7
        (omega arith, (omega arith, (omega arith, text)))
        (All-drop _ (length s) q bytes.1.1.1.1.1.1.1.1.1.1.1)
        (omega (arith, length-drop (length s) q)) (omega (arith, length-drop (length s) q)) in
    (
      buf,
      rw (write_body h0 h1 h2 h3 h4 h5 h6 h7 d0 d1 d2 ptr q s (omega arith), wrapped) refl,
      delivers,
    )
build_disconnect_message_lem login s _ ptr bytes text room small = absurd (omega arith)
