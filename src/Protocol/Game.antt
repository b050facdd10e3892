-- ===== src/Protocol/Game.antt =====
-- src/protocol_game.c: the game protocol, whose first message is read and not yet acted on.
pub mod Overread
mod Tests
use kaplarc.Base.{
  ℕ, ◌+◌, ◌^◌, ◌%◌, Bool, true, false, ◌||◌, Option, none, some, List, [], ◌∷◌, drop, u16, ltb,
  ◌==◌, ◌>>=◌, if◌then◌else◌,
}
use kaplarc.Codec.Portable.{decode_u8, decode_u16_le}
use kaplarc.Codec.TibiaString.{decode_tibia_string}
use kaplarc.Protocol.Login.{decode_key}
use kaplarc.Server.Connection.State.{Status}

-- `struct login_info`, of which the code sets these fields.
pub record GameLogin : Type 0 where
  pub xtea : List ℕ
  pub gm_flag : Bool
  pub accname : List ℕ
  pub password : List ℕ
  pub charname : List ℕ

-- The RSA block decoded in place and its length, and the login that `kpl_malloc` gives.
pub record Env : Type 0 where
  pub tibia_rsa_decode : List ℕ → ℕ → Option (List ℕ × ℕ)
  pub malloc : GameLogin

-- The challenge message.
unfoldable pub challenge : List ℕ
challenge =
    0x0C ∷ 0x00 ∷ 0x23 ∷ 0x03 ∷ 0xE8 ∷ 0x0A ∷ 0x06 ∷ 0x00 ∷ 0x1F ∷ 0xFF ∷ 0xFF ∷ 0x00 ∷ 0x00 ∷ 0xFF
    ∷ []

-- The bytes that are sent, and the answer.
unfoldable pub on_connect : List ℕ × Status
on_connect = (challenge, Status.ok)

unfoldable pub on_write : Status
on_write = Status.ok

unfoldable pub on_recv_message : List ℕ → ℕ → Status
on_recv_message input datalen = Status.close

-- The user data that is assigned: NULL.
unfoldable pub on_assign_protocol : Option ℕ × Bool
on_assign_protocol = (none, true)

-- A string into one of the arrays of 32 bytes, unless the size of the one before it, `previous`, is
-- too large: then the array is left and the size is 0.
unfoldable pub decode_after : ℕ → List ℕ → List ℕ → Option (List ℕ × ℕ)
decode_after previous input out =
    let decoded = decode_tibia_string input out 32 in
    if ltb 32 previous then some (out, 0) else decoded

-- The three names, and their sizes `A`, `B` and `C`; `S` is a uint16.
unfoldable pub decode_three : List ℕ → GameLogin → Option (ℕ × ℕ × ℕ × GameLogin)
decode_three decoded login = decode_tibia_string (drop 17 decoded) login.accname 32 >>= λ acc.
    decode_after acc.1 (drop (17 + acc.1) decoded) login.charname >>= λ char.
    decode_after char.1 (drop (17 + u16 (acc.1 + char.1)) decoded) login.password >>= λ pass.
    some (
      acc.1,
      char.1,
      pass.1,
      record login { accname = acc.0; charname = char.0; password = pass.0 },
    )

-- The answer, and the login that is logged before it is freed, if any.
unfoldable pub names_decoded : List ℕ → GameLogin → Option (Status × Option GameLogin)
names_decoded decoded login = decode_u8 (drop 16 decoded) >>= λ flag.
    decode_three decoded (record login { gm_flag = flag == 0x01 }) >>= λ r.
    some (Status.close, if (ltb 32 r.0 || ltb 32 r.1) || ltb 32 r.2 then none else some r.3)

unfoldable pub start_login : Env → ℕ → List ℕ → Option (Status × Option GameLogin)
start_login env version decoded = decode_key decoded >>= λ key.
    let named = names_decoded decoded (record env.malloc { xtea = key }) in
    if ltb version 860 || ltb 860 version then some (Status.close, none) else named

unfoldable pub rsa_decoded : Env → ℕ → Option (List ℕ × ℕ) → Option (Status × Option GameLogin)
rsa_decoded env version none = some (Status.close, none)
rsa_decoded env version (some (plain, decoded_len)) =
    if decoded_len == 127 then start_login env version plain else some (Status.close, none)

unfoldable pub on_recv_first_message : Env → List ℕ → ℕ → Option (Status × Option GameLogin)
on_recv_first_message env input datalen =
    let received = decode_u16_le (drop 7 input) >>= λ version.
    if ltb version 830
    then some (Status.close, none)
    else rsa_decoded env version (env.tibia_rsa_decode (drop 9 input) 128) in
    if datalen == 137 then received else some (Status.close, none)
