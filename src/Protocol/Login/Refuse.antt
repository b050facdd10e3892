-- ===== src/Protocol/Login/Refuse.antt =====
-- The logins that `database_resolve_login` of src/protocol_login.c turns away.
use kaplarc.Base.{
  ℕ, ◌≤◌, ◌<◌, ◌≡◌, ◌⊎◌, inl, inr, refl, arith, Bool, true, false, not, Option, none, some, List,
  [], ◌∷◌, All, length, if◌then◌else◌,
}
use kaplarc.Memory.Outbuf.{Outbuf}
use kaplarc.Protocol.Login.{
  LoginInfo, World, Answers, Account, c_string, strcmp_eq, send_disconnect, charlist_loaded,
  account_loaded, resolve_account, database_resolve_login, not_correct, invalid_account,
}
use kaplarc.Protocol.Login.Deliver.{Delivers}
use kaplarc.Protocol.Login.Disconnect.{disconnect_body, build_disconnect_message_lem}

-- The database has an account for the login's name, and its password is the login's.
abbrev pub Known : LoginInfo → Option Account → Type 0
Known login none = ⊥
Known login (some account) = strcmp_eq (c_string account.password) (c_string login.password) ≡ true

-- The login goes to the server thread with a message that turns the client away, unless that thread
-- takes no more tasks.
pub record Refused (a : Answers) (w : World) (login : LoginInfo) (r : Option World) : Type 0 where
  pub text : List ℕ
  pub buf : Outbuf
  pub delivers : Delivers login.xtea (disconnect_body text) buf
  pub after :
      r
      ≡ some (
          if a.accepted
          then record w { server_tasks = record login { output = some buf } ∷ w.server_tasks }
          else w)

send_disconnect-Refused :
    (a : Answers) (w : World) (login : LoginInfo) (s : List ℕ)
    → All (λ b. b < 256) a.fresh.base
    → length a.fresh.base ≡ 16368
    → All (λ b. b < 256) s
    → length s ≤ 1000
    → Refused a w login (send_disconnect a.accepted a.fresh w login s)
unfolding send_disconnect
send_disconnect-Refused a w login s bytes size text short =
    let fresh = a.fresh in
    let (buf, e, delivers) =
      build_disconnect_message_lem login s fresh.base fresh.ptr bytes text (omega arith)
        (omega arith) in
    record { text = s; buf = buf; delivers = delivers; after = rw e refl }

not_correct-Refused :
    (a : Answers) (w : World) (login : LoginInfo)
    → All (λ b. b < 256) a.fresh.base
    → length a.fresh.base ≡ 16368
    → Refused a w login (send_disconnect a.accepted a.fresh w login not_correct)
not_correct-Refused a w login bytes size =
    send_disconnect-Refused a w login not_correct bytes size (omega arith) (omega arith)

account_loaded-Refused :
    (a : Answers) (w : World) (login : LoginInfo) (found : Option Account)
    → All (λ b. b < 256) a.fresh.base
    → length a.fresh.base ≡ 16368
    → ¬ (Known login found)
    → Refused a w login (account_loaded a w login found)
unfolding account_loaded
account_loaded-Refused a w login none bytes size unknown = not_correct-Refused a w login bytes size
account_loaded-Refused a w login (some account) bytes size unknown =
    wrong (strcmp_eq (c_string account.password) (c_string login.password)) refl
  where
    wrong :
        (same : Bool)
        → strcmp_eq (c_string account.password) (c_string login.password) ≡ same
        → Refused a w login (
            if not same
            then send_disconnect a.accepted a.fresh w login not_correct
            else charlist_loaded a w login (a.db_load_account_charlist account.id))
    wrong true e = absurd (unknown e)
    wrong false e = not_correct-Refused a w login bytes size

-- With a fresh buffer of its size, a login without a name, or with a name that the database does not
-- know or knows with another password, gets no character list: the client that holds the login's key
-- is sent a message that turns it away, unless the server thread takes no more tasks.
pub database_resolve_login-Refused :
    (a : Answers) (w : World) (login : LoginInfo)
    → All (λ b. b < 256) a.fresh.base
    → length a.fresh.base ≡ 16368
    → (c_string login.accname ≡ [])
      ⊎ (¬ (Known login (a.db_load_account_info (c_string login.accname))))
    → Refused a w login (database_resolve_login a w login)
unfolding database_resolve_login resolve_account
database_resolve_login-Refused a w login bytes size wrong = by_name (c_string login.accname) wrong
  where
    by_name :
        (name : List ℕ)
        → (name ≡ []) ⊎ (¬ (Known login (a.db_load_account_info name)))
        → Refused a w login (resolve_account a w login name)
    by_name [] h =
        send_disconnect-Refused a w login invalid_account bytes size (omega arith) (omega arith)
    by_name (b ∷ s) (inl e) = absurd (cc)
    by_name (b ∷ s) (inr unknown) =
        account_loaded-Refused a w login (a.db_load_account_info (b ∷ s)) bytes size unknown
