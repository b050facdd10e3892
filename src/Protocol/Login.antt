-- ===== src/Protocol/Login.antt =====
-- src/protocol_login.c: the login protocol. The output message that is wrapped for the client, the
-- first message of a client, and the account lookup on the database thread.
pub mod Wrap
pub mod Deliver
pub mod Disconnect
pub mod Names
pub mod Refuse
mod Tests
pub mod First
use kaplarc.Base.{
  ℕ, zero, suc, ◌+◌, ◌-◌, ◌^◌, ◌%◌, Bool, true, false, not, ◌||◌, Option, none, some, List, [], ◌∷◌,
  ◌++◌, length, take, drop, u16, u8, u32, sub32, bit_and, ltb, ◌==◌, ◌>>=◌, if◌then◌else◌,
}
use kaplarc.Checksum.Adler.{adler32}
use kaplarc.Codec.Portable.{encode_u16_le, encode_u32_le, decode_u8, decode_u16_le, decode_u32_le}
use kaplarc.Codec.TibiaString.{decode_tibia_string}
use kaplarc.Crypto.Xtea.{xtea_encode}
use kaplarc.Memory.Outbuf.{
  Outbuf, write_at, outbuf_data, outbuf_len, outbuf_write_byte, outbuf_write_u16, outbuf_write_u32,
  outbuf_write_str,
}
use kaplarc.Server.Connection.State.{Status}

-- `struct login_info`
pub record LoginInfo : Type 0 where
  pub output : Option Outbuf
  pub connection : ℕ
  pub xtea : List ℕ
  pub accname : List ℕ
  pub password : List ℕ

-- reserve 8 bytes for header
unfoldable pub outbuf_prepare : Outbuf → Outbuf
outbuf_prepare buf = record buf { ptr = 8 }

-- while(padding-- > 0)
unfoldable pub pad : ℕ → Outbuf → Option Outbuf
pad zero buf = some buf
pad (suc padding) buf = outbuf_write_byte buf 0x33 >>= λ buf'. pad padding buf'

-- add message header
unfoldable pub add_header : List ℕ → ℕ → Option (List ℕ)
add_header base datalen = adler32 (drop 6 base) datalen >>= λ checksum.
    write_at (λ p. encode_u16_le p (u16 (datalen + 4))) 0 base >>= λ base'.
    write_at (λ p. encode_u32_le p checksum) 2 base'

-- `datalen` is the uint32 difference of the two pointers.
unfoldable pub outbuf_wrap : Outbuf → List ℕ → Option Outbuf
outbuf_wrap buf xtea =
    let datalen = sub32 buf.ptr 6 in
    let padding = bit_and (8 - bit_and datalen 7) 7 in
    write_at (λ p. encode_u16_le p (u16 (sub32 datalen 2))) 6 buf.base >>= λ base.
    pad padding (record buf { base = base }) >>= λ padded.
    write_at (λ p. xtea_encode xtea p (datalen + padding)) 6 padded.base >>= λ encoded.
    add_header encoded (datalen + padding) >>= λ headed. some (record padded { base = headed })

-- "Invalid account name."
abbrev pub invalid_account : List ℕ
invalid_account =
    73 ∷ 110 ∷ 118 ∷ 97 ∷ 108 ∷ 105 ∷ 100 ∷ 32 ∷ 97 ∷ 99 ∷ 99 ∷ 111 ∷ 117 ∷ 110 ∷ 116 ∷ 32 ∷ 110
    ∷ 97 ∷ 109 ∷ 101 ∷ 46 ∷ []

-- "Account name or password is not correct."
abbrev pub not_correct : List ℕ
not_correct =
    65 ∷ 99 ∷ 99 ∷ 111 ∷ 117 ∷ 110 ∷ 116 ∷ 32 ∷ 110 ∷ 97 ∷ 109 ∷ 101 ∷ 32 ∷ 111 ∷ 114 ∷ 32 ∷ 112
    ∷ 97 ∷ 115 ∷ 115 ∷ 119 ∷ 111 ∷ 114 ∷ 100 ∷ 32 ∷ 105 ∷ 115 ∷ 32 ∷ 110 ∷ 111 ∷ 116 ∷ 32 ∷ 99 ∷ 111
    ∷ 114 ∷ 114 ∷ 101 ∷ 99 ∷ 116 ∷ 46 ∷ []

-- "Internal error. Contact an admin."
abbrev pub internal_error : List ℕ
internal_error =
    73 ∷ 110 ∷ 116 ∷ 101 ∷ 114 ∷ 110 ∷ 97 ∷ 108 ∷ 32 ∷ 101 ∷ 114 ∷ 114 ∷ 111 ∷ 114 ∷ 46 ∷ 32 ∷ 67
    ∷ 111 ∷ 110 ∷ 116 ∷ 97 ∷ 99 ∷ 116 ∷ 32 ∷ 97 ∷ 110 ∷ 32 ∷ 97 ∷ 100 ∷ 109 ∷ 105 ∷ 110 ∷ 46 ∷ []

-- "Internal error. Try again later."
abbrev pub try_later : List ℕ
try_later =
    73 ∷ 110 ∷ 116 ∷ 101 ∷ 114 ∷ 110 ∷ 97 ∷ 108 ∷ 32 ∷ 101 ∷ 114 ∷ 114 ∷ 111 ∷ 114 ∷ 46 ∷ 32 ∷ 84
    ∷ 114 ∷ 121 ∷ 32 ∷ 97 ∷ 103 ∷ 97 ∷ 105 ∷ 110 ∷ 32 ∷ 108 ∷ 97 ∷ 116 ∷ 101 ∷ 114 ∷ 46 ∷ []

-- "Your account has been banned."
abbrev pub banned : List ℕ
banned =
    89 ∷ 111 ∷ 117 ∷ 114 ∷ 32 ∷ 97 ∷ 99 ∷ 99 ∷ 111 ∷ 117 ∷ 110 ∷ 116 ∷ 32 ∷ 104 ∷ 97 ∷ 115 ∷ 32 ∷ 98
    ∷ 101 ∷ 101 ∷ 110 ∷ 32 ∷ 98 ∷ 97 ∷ 110 ∷ 110 ∷ 101 ∷ 100 ∷ 46 ∷ []

-- "This server requires client version 8.60."
abbrev pub other_version : List ℕ
other_version =
    84 ∷ 104 ∷ 105 ∷ 115 ∷ 32 ∷ 115 ∷ 101 ∷ 114 ∷ 118 ∷ 101 ∷ 114 ∷ 32 ∷ 114 ∷ 101 ∷ 113 ∷ 117 ∷ 105
    ∷ 114 ∷ 101 ∷ 115 ∷ 32 ∷ 99 ∷ 108 ∷ 105 ∷ 101 ∷ 110 ∷ 116 ∷ 32 ∷ 118 ∷ 101 ∷ 114 ∷ 115 ∷ 105
    ∷ 111 ∷ 110 ∷ 32 ∷ 56 ∷ 46 ∷ 54 ∷ 48 ∷ 46 ∷ []

-- What the handlers change outside the login: the user data of each connection (`none` for a
-- connection that is no longer valid), the bytes sent, the buffers released, and the tasks of the
-- database and of the server thread.
pub record World : Type 0 where
  pub userdata : ℕ → Option (Option Outbuf)
  pub sent : List (ℕ × List ℕ)
  pub released : List Outbuf
  pub db_tasks : List LoginInfo
  pub server_tasks : List LoginInfo

unfoldable pub set_userdata : World → ℕ → Option Outbuf → World
set_userdata w c buf = record w { userdata = λ d. if d == c then some buf else w.userdata d }

-- The buffer goes to the connection, whose user data is given, or is released HERE.
unfoldable pub send_output : World → ℕ → Outbuf → Option (Option Outbuf) → World
send_output w c buf none = record w { released = buf ∷ w.released }
send_output w c buf (some _) =
    let w' = set_userdata w c (some buf) in
    record w' { sent = (c, take (outbuf_len buf) (outbuf_data buf)) ∷ w.sent }

unfoldable pub resolve_output : World → ℕ → Option Outbuf → World
resolve_output w c none = w
resolve_output w c (some buf) = send_output w c buf (w.userdata c)

-- The login is freed here, after the task: nothing of it is left.
unfoldable pub internal_resolve_login : World → LoginInfo → World
internal_resolve_login w login = resolve_output w login.connection login.output

-- `fresh` is the buffer that `outbuf_acquire` gives.
unfoldable pub build_disconnect_message : Outbuf → LoginInfo → List ℕ → Option LoginInfo
build_disconnect_message fresh login message =
    outbuf_write_byte (outbuf_prepare fresh) 0x0A >>= λ buf1.
    outbuf_write_str buf1 message >>= λ buf2.
    outbuf_wrap buf2 login.xtea >>= λ buf3. some (record login { output = some buf3 })

unfoldable pub internal_send_disconnect : Outbuf → World → LoginInfo → List ℕ → Option World
internal_send_disconnect fresh w login message =
    build_disconnect_message fresh login message >>= λ login'.
    some (internal_resolve_login w login')

-- `accepted` is the answer of `game_add_server_task`, which the code does not look at.
unfoldable pub send_disconnect : Bool → Outbuf → World → LoginInfo → List ℕ → Option World
send_disconnect accepted fresh w login message =
    build_disconnect_message fresh login message >>= λ login'.
    some (if accepted then record w { server_tasks = login' ∷ w.server_tasks } else w)

-- The bytes of a C string, up to its NUL.
unfoldable pub c_string : List ℕ → List ℕ
c_string [] = []
c_string (b ∷ s) = if b == 0 then [] else (b ∷ c_string s)

-- strcmp(a, b) == 0, of strings that are terminated
unfoldable pub strcmp_eq : List ℕ → List ℕ → Bool
strcmp_eq [] [] = true
strcmp_eq (a ∷ s) (b ∷ t) = if a == b then strcmp_eq s t else false
strcmp_eq _ _ = false

-- The row of an account, and what the database and the configuration answer. An account's name is
-- unique, so there is one row or none.
pub record Account : Type 0 where
  pub id : ℕ
  pub password : List ℕ

pub record Answers : Type 0 where
  pub db_load_account_info : List ℕ → Option Account
  pub db_load_account_charlist : ℕ → Option (List (List ℕ))
  pub motd : List ℕ
  pub sv_name : List ℕ
  pub sv_game_port : ℕ
  pub fresh : Outbuf
  pub accepted : Bool

-- The loop over the characters.
unfoldable pub write_charlist : Answers → Outbuf → List (List ℕ) → Option Outbuf
write_charlist a buf [] = some buf
write_charlist a buf (name ∷ names) = outbuf_write_str buf name >>= λ buf1.
    outbuf_write_str buf1 a.sv_name >>= λ buf2. outbuf_write_u32 buf2 16777343 >>= λ buf3.
    outbuf_write_u16 buf3 (u16 a.sv_game_port) >>= λ buf4. write_charlist a buf4 names

-- send charlist message
unfoldable pub charlist_message : Answers → List ℕ → List (List ℕ) → Option Outbuf
charlist_message a xtea names = outbuf_write_byte (outbuf_prepare a.fresh) 0x14 >>= λ buf1.
    outbuf_write_str buf1 a.motd >>= λ buf2. outbuf_write_byte buf2 0x64 >>= λ buf3.
    outbuf_write_byte buf3 (u8 (length names)) >>= λ buf4. write_charlist a buf4 names >>= λ buf5.
    outbuf_write_u16 buf5 1 >>= λ buf6. outbuf_wrap buf6 xtea

unfoldable pub send_charlist : Answers → World → LoginInfo → List (List ℕ) → Option World
send_charlist a w login names = charlist_message a login.xtea names >>= λ buf.
    let login' = record login { output = some buf } in
    some (if a.accepted then record w { server_tasks = login' ∷ w.server_tasks } else w)

-- After the characters of the account are loaded, or a NULL result.
unfoldable pub charlist_loaded : Answers → World → LoginInfo → Option (List (List ℕ)) → Option World
charlist_loaded a w login none = send_disconnect a.accepted a.fresh w login internal_error
charlist_loaded a w login (some names) = send_charlist a w login names

-- After the account is loaded: a NULL or empty result, or its row.
unfoldable pub account_loaded : Answers → World → LoginInfo → Option Account → Option World
account_loaded a w login none = send_disconnect a.accepted a.fresh w login not_correct
account_loaded a w login (some account) =
    if not (strcmp_eq (c_string account.password) (c_string login.password))
    then send_disconnect a.accepted a.fresh w login not_correct
    else charlist_loaded a w login (a.db_load_account_charlist account.id)

-- By the name of the account.
unfoldable pub resolve_account : Answers → World → LoginInfo → List ℕ → Option World
resolve_account a w login [] = send_disconnect a.accepted a.fresh w login invalid_account
resolve_account a w login (b ∷ s) = account_loaded a w login (a.db_load_account_info (b ∷ s))

unfoldable pub database_resolve_login : Answers → World → LoginInfo → Option World
database_resolve_login a w login = resolve_account a w login (c_string login.accname)

unfoldable pub identify : List ℕ → ℕ → Option Bool
identify input datalen =
    let checked = adler32 (drop 4 input) (datalen - 4) >>= λ checksum.
    decode_u32_le input >>= λ sum.
    decode_u8 (drop 4 input) >>= λ id. some (if checksum == sum then id == 0x01 else false) in
    if ltb datalen 5 then some false else checked

unfoldable pub on_assign_protocol : World → ℕ → Option World
on_assign_protocol w c = w.userdata c >>= λ _. some (set_userdata w c none)

unfoldable pub on_close : World → ℕ → Option World
on_close w c = w.userdata c >>= λ udata. elim udata [
  | none ↦ some w
  | some buf ↦ some (set_userdata (record w { released = buf ∷ w.released }) c none)
]

-- A NULL buffer is a failed assertion.
unfoldable pub on_write : World → ℕ → Option (Status × World)
on_write w c = w.userdata c >>= λ udata. udata >>= λ buf.
    some (Status.close, set_userdata (record w { released = buf ∷ w.released }) c none)

unfoldable pub on_recv_message : World → ℕ → List ℕ → ℕ → Status × World
on_recv_message w c input datalen = (Status.abort, w)

-- What the other modules answer to the first message: the RSA block decoded in place and its
-- length, the login that `kpl_malloc` gives, a fresh output buffer, and whether the database thread
-- takes another task.
pub record Env : Type 0 where
  pub tibia_rsa_decode : List ℕ → ℕ → Option (List ℕ × ℕ)
  pub malloc : LoginInfo
  pub fresh : Outbuf
  pub db_accepts : Bool

unfoldable pub decode_key : List ℕ → Option (List ℕ)
decode_key decoded = decode_u32_le decoded >>= λ k0. decode_u32_le (drop 4 decoded) >>= λ k1.
    decode_u32_le (drop 8 decoded) >>= λ k2.
    decode_u32_le (drop 12 decoded) >>= λ k3. some (k0 ∷ k1 ∷ k2 ∷ k3 ∷ [])

-- `A`, `B` and the two strings: the second is read only when the first is not too long.
unfoldable pub decode_names : List ℕ → LoginInfo → Option (ℕ × ℕ × LoginInfo)
decode_names decoded login = decode_tibia_string (drop 16 decoded) login.accname 32 >>= λ name.
    let second = decode_tibia_string (drop (16 + name.1) decoded) login.password 32 >>= λ pass.
    some (name.1, pass.1, record login { accname = name.0; password = pass.0 }) in
    if ltb 32 name.1 then some (name.1, 0, record login { accname = name.0 }) else second

unfoldable pub closed_with : Env → World → LoginInfo → List ℕ → Option (Status × World)
closed_with env w login message =
    internal_send_disconnect env.fresh w login message >>= λ w'. some (Status.close, w')

unfoldable pub queue_login : Env → World → LoginInfo → Option (Status × World)
queue_login env w login =
    if env.db_accepts
    then some (Status.stop_reading, record w { db_tasks = login ∷ w.db_tasks })
    else closed_with env w login try_later

-- From the allocation of the login on.
unfoldable pub start_login : Env → World → ℕ → ℕ → List ℕ → Option (Status × World)
start_login env w c version decoded = decode_key decoded >>= λ key.
    let login = record env.malloc { connection = c; output = none; xtea = key } in
    let named = decode_names decoded login >>= λ r.
    if ltb 32 r.0 || ltb 32 r.1 then closed_with env w r.2 banned else queue_login env w r.2 in
    if ltb version 860 || ltb 860 version then closed_with env w login other_version else named

unfoldable pub rsa_decoded : Env → World → ℕ → ℕ → List ℕ → Option (Status × World)
rsa_decoded env w c version decoded = elim (env.tibia_rsa_decode decoded 128) [
  | none ↦ some (Status.close, w)
  | some (plain, decoded_len) ↦
      if decoded_len == 127 then start_login env w c version plain else some (Status.close, w)
]

unfoldable pub on_recv_first_message : Env → World → ℕ → List ℕ → ℕ → Option (Status × World)
on_recv_first_message env w c input datalen =
    let received = decode_u16_le (drop 7 input) >>= λ version.
    if ltb version 830
    then some (Status.close, w)
    else rsa_decoded env w c version (drop 21 input) in
    if datalen == 149 then received else some (Status.close, w)
