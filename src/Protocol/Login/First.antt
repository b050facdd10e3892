-- ===== src/Protocol/Login/First.antt =====
-- The first message of a client, in src/protocol_login.c: whatever it holds, the handler stays
-- inside its buffers.
use kaplarc.Base.{
  ℕ, ◌≤◌, ◌<◌, ◌≡◌, ◌⊎◌, inl, inr, refl, ap, ◌∙◌, arith, Bool, true, false, Bool-cases, Option,
  none, some, List, ◌∷◌, All, drop, length, length-drop, ltb, lt→ltb, ne→==_false, ◌==◌, ◌||◌,
  if◌then◌else◌, ℕ_discrete,
}
use kaplarc.Memory.Outbuf.{Outbuf}
use kaplarc.Protocol.Login.{
  LoginInfo, World, Env, internal_send_disconnect, internal_resolve_login, set_userdata,
  send_output, resolve_output, closed_with, queue_login, start_login, rsa_decoded,
  on_recv_first_message, banned, try_later, other_version,
}
use kaplarc.Protocol.Login.Names.{
  HoldsString, decode_u16_le-some, decode_key-some, decode_names_lem,
}
use kaplarc.Protocol.Login.Disconnect.{build_disconnect_message_lem}
use kaplarc.Server.Connection.State.{Status}

-- What the handler may answer: it closes the connection and queues nothing, or it stops reading and
-- queues one login, of this connection, without an output, with its key and two strings.
pub record Queued (w : World) (c : ℕ) (w' : World) : Type 0 where
  pub login : LoginInfo
  pub after : w' ≡ record w { db_tasks = login ∷ w.db_tasks }
  pub connection : login.connection ≡ c
  pub output : login.output ≡ none
  pub xtea : length login.xtea ≡ 4
  pub accname : HoldsString login.accname
  pub password : HoldsString login.password

abbrev pub Answered : World → ℕ → Option (Status × World) → Type 0
Answered w c r =
    (answer : Status) × (w' : World) × (r ≡ some (answer, w'))
    × (((answer ≡ Status.close) × (w'.db_tasks ≡ w.db_tasks))
        ⊎ ((answer ≡ Status.stop_reading) × Queued w c w'))

closed_at_once : (w : World) (c : ℕ) → Answered w c (some (Status.close, w))
closed_at_once w c = (Status.close, w, refl, inl (refl, refl))

db_tasks-send_output :
    (w : World) (c : ℕ) (buf : Outbuf) (udata : Option (Option Outbuf))
    → (send_output w c buf udata).db_tasks ≡ w.db_tasks
unfolding send_output set_userdata
db_tasks-send_output w c buf none = refl
db_tasks-send_output w c buf (some _) = refl

db_tasks-resolve_output :
    (w : World) (c : ℕ) (output : Option Outbuf) → (resolve_output w c output).db_tasks ≡ w.db_tasks
unfolding resolve_output
db_tasks-resolve_output w c none = refl
db_tasks-resolve_output w c (some buf) = db_tasks-send_output w c buf (w.userdata c)

-- What the handler relies on.
pub record IsSound (env : Env) : Type 0 where
  pub plain :
      (p : List ℕ) (n : ℕ) (q : List ℕ)
      → env.tibia_rsa_decode p 128 ≡ some (q, n)
      → length q ≡ length p
  pub accname_size : length env.malloc.accname ≡ 32
  pub password_size : length env.malloc.password ≡ 32
  pub fresh_bytes : All (λ b. b < 256) env.fresh.base
  pub fresh_size : length env.fresh.base ≡ 16368

closed_with_lem :
    (env : Env) (w : World) (c : ℕ) (login : LoginInfo) (s : List ℕ)
    → IsSound env
    → All (λ b. b < 256) s
    → length s ≤ 1000
    → Answered w c (closed_with env w login s)
unfolding closed_with internal_send_disconnect internal_resolve_login
closed_with_lem env w c login s sound text short =
    let fresh = env.fresh in
    let size = sound.fresh_size in
    let (buf, e, _) =
      build_disconnect_message_lem login s fresh.base fresh.ptr sound.fresh_bytes text (omega arith)
        (omega arith) in
    let login' = record login { output = some buf } in
    (
      Status.close,
      internal_resolve_login w login',
      rw e refl,
      inl (refl, db_tasks-resolve_output w login.connection (some buf)),
    )

-- The texts are bytes.
banned-bytes : All (λ b. b < 256) banned
banned-bytes = omega arith

try_later-bytes : All (λ b. b < 256) try_later
try_later-bytes = omega arith

other_version-bytes : All (λ b. b < 256) other_version
other_version-bytes = omega arith

queue_login_lem :
    (env : Env) (w : World) (c : ℕ) (login : LoginInfo)
    → IsSound env
    → login.connection ≡ c
    → login.output ≡ none
    → length login.xtea ≡ 4
    → HoldsString login.accname
    → HoldsString login.password
    → Answered w c (queue_login env w login)
unfolding queue_login closed_with
queue_login_lem env w c login sound same fresh key name word = elim (Bool-cases env.db_accepts) [
  | inl e ↦ (
    Status.stop_reading,
    record w { db_tasks = login ∷ w.db_tasks },
    rw e refl,
    inr (
      refl,
      record {
        login = login;
        after = refl;
        connection = same;
        output = fresh;
        xtea = key;
        accname = name;
        password = word;
      },
    ),
  )
  | inr e ↦ rw e (closed_with_lem env w c login try_later sound try_later-bytes (omega arith))
]

-- After the names are read.
names_checked :
    (env : Env) (w : World) (c a b : ℕ) (login : LoginInfo)
    → IsSound env
    → login.connection ≡ c
    → login.output ≡ none
    → length login.xtea ≡ 4
    → (32 < a) ⊎ (HoldsString login.accname × HoldsString login.password)
    → Answered w c
        (if ltb 32 a || ltb 32 b then closed_with env w login banned else queue_login env w login)
names_checked env w c a b login sound same fresh key (inl long) =
    rw (lt→ltb 32 a long) (closed_with_lem env w c login banned sound banned-bytes (omega arith))
names_checked env w c a b login sound same fresh key (inr (name, word)) =
    either (ltb 32 a || ltb 32 b)
  where
    either :
        (long : Bool)
        → Answered w c (if long then closed_with env w login banned else queue_login env w login)
    either true = closed_with_lem env w c login banned sound banned-bytes (omega arith)
    either false = queue_login_lem env w c login sound same fresh key name word

start_login_lem :
    (env : Env) (w : World) (c version : ℕ) (p : List ℕ)
    → IsSound env
    → 128 ≤ length p
    → Answered w c (start_login env w c version p)
unfolding start_login
start_login_lem env w c version p sound room =
    let (key, e, four) = decode_key-some p (omega arith) in
    let login = record env.malloc { connection = c; output = none; xtea = key } in
    let (a, b, login', named, same, short) =
      decode_names_lem p login room sound.accname_size sound.password_size in
    rw (e, named)
      (versioned login _ (ltb version 860 || ltb 860 version) (
        names_checked env w c a b login' sound same.same_connection same.same_output
          (ap length same.same_xtea ∙ four) short))
  where
    versioned :
        (login : LoginInfo) (r : Option (Status × World)) (other : Bool)
        → Answered w c r
        → Answered w c (if other then closed_with env w login other_version else r)
    versioned login r true h =
        closed_with_lem env w c login other_version sound other_version-bytes (omega arith)
    versioned login r false h = h

rsa_decoded_lem :
    (env : Env) (w : World) (c version : ℕ) (p : List ℕ)
    → IsSound env
    → 128 ≤ length p
    → Answered w c (rsa_decoded env w c version p)
unfolding rsa_decoded
rsa_decoded_lem env w c version p sound room = plain (env.tibia_rsa_decode p 128) (sound.plain p)
  where
    plain :
        (r : Option (List ℕ × ℕ))
        → ((n : ℕ) (q : List ℕ) → r ≡ some (q, n) → length q ≡ length p)
        → Answered w c (elim r [
          | none ↦ some (Status.close, w)
          | some (q, n) ↦ if n == 127 then start_login env w c version q else some (Status.close, w)
        ])
    plain none h = closed_at_once w c
    plain (some (q, n)) h =
        chosen (n == 127) (start_login_lem env w c version q sound (omega (arith, h n q refl)))
      where
        chosen :
            (right : Bool)
            → Answered w c (start_login env w c version q)
            → Answered w c (if right then start_login env w c version q else some (Status.close, w))
        chosen true g = g
        chosen false g = closed_at_once w c

-- Whatever the message of a client holds and whatever RSA makes of it, the handler reads and writes
-- inside its buffers, when RSA keeps the size of its block and the memory that it is given has the
-- sizes that it asks for. It closes the connection and queues no login, or it queues one, for this
-- connection, with its four key words and both names terminated inside their arrays.
pub on_recv_first_message-Answered :
    (env : Env) (w : World) (c : ℕ) (input : List ℕ) (datalen : ℕ)
    → IsSound env
    → datalen ≤ length input
    → Answered w c (on_recv_first_message env w c input datalen)
unfolding on_recv_first_message
on_recv_first_message-Answered env w c input datalen sound room = elim (ℕ_discrete datalen 149) [
  | yes e ↦
      let (version, f) = decode_u16_le-some (drop 7 input) (omega (arith, length-drop 7 input)) in
      rw (e, f)
        (chosen (ltb version 830) (
          rsa_decoded_lem env w c version (drop 21 input) sound
            (omega (arith, length-drop 21 input))))
  | no ne ↦ rw (ne→==_false datalen 149 ne) (closed_at_once w c)
]
  where
    chosen :
        (old : Bool) {r : Option (Status × World)}
        → Answered w c r
        → Answered w c (if old then some (Status.close, w) else r)
    chosen true g = closed_at_once w c
    chosen false g = g
