-- ===== src/Protocol/Echo.antt =====
-- src/protocol_echo.c: a message comes back with its length in front.
pub mod Answer
mod Tests
use kaplarc.Base.{
  ℕ, ◌+◌, ◌-◌, ◌%◌, ◌^◌, Bool, true, false, not, Option, none, some, List, [], ◌∷◌, take, drop, u16,
  sub32, ltb, min, ◌==◌, ◌&&◌, ◌>>=◌, if◌then◌else◌,
}
use kaplarc.Codec.Portable.{encode_u16_le}
use kaplarc.Codec.TibiaString.{memcpy}
use kaplarc.Memory.Outbuf.{write_at}
use kaplarc.Server.Connection.State.{Status}

-- 1024 - sizeof(bool)
abbrev pub echo_buffer_size : ℕ
echo_buffer_size = 1023

pub record EchoHandle : Type 0 where
  pub output_ready : Bool
  pub output_buffer : List ℕ

unfoldable pub identify : List ℕ → ℕ → Bool
identify (e ∷ c ∷ h ∷ o ∷ _) datalen =
    if ltb datalen 4 then false else (e == 69 && c == 67 && h == 72 && o == 79)
identify _ datalen = false

-- `malloc` is what `kpl_malloc` gives.
unfoldable pub on_assign_protocol : EchoHandle → EchoHandle
on_assign_protocol malloc = record malloc { output_ready = true }

unfoldable pub on_write : EchoHandle → Status × EchoHandle
on_write h = (Status.ok, record h { output_ready = true })

-- The length and the message, in the output buffer.
unfoldable pub fill_output : List ℕ → List ℕ → ℕ → Option (List ℕ)
fill_output out input output_length =
    write_at (λ p. encode_u16_le p (u16 output_length)) 0 out >>= λ base.
    write_at (λ p. memcpy output_length p input) 2 base

-- The bytes that are sent, if any, and the handle; `accepted` is the answer of `connection_send`.
unfoldable pub on_recv_message :
    Bool → EchoHandle → List ℕ → ℕ → Option (Option (List ℕ) × EchoHandle)
on_recv_message accepted h input datalen =
    let output_length = min datalen (echo_buffer_size - 2) in
    let answered = fill_output h.output_buffer input output_length >>= λ buffer. some (
      some (take (output_length + 2) buffer),
      record h { output_buffer = buffer; output_ready = not accepted },
    ) in
    if h.output_ready then answered else some (none, h)

-- skip protocol identifier and parse as a regular message
unfoldable pub on_recv_first_message :
    Bool → EchoHandle → List ℕ → ℕ → Option (Option (List ℕ) × EchoHandle)
on_recv_first_message accepted h input datalen =
    on_recv_message accepted h (drop 4 input) (sub32 datalen 4)
