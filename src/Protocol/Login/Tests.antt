-- ===== src/Protocol/Login/Tests.antt =====
-- src/protocol_login.c on small messages: RSA is the identity, and the key is zero.
use kaplarc.Base.{
  ℕ, ◌≡◌, ◌<◌, inr, refl, arith, true, Option, none, some, List, [], ◌∷◌, ◌++◌, All-replicate,
  length-replicate, replicate, map, ◌==◌, if◌then◌else◌,
}
use kaplarc.Codec.Portable.{decode_u16_le, decode_u32_le}
use kaplarc.Codec.TibiaString.{decode_tibia_string, memcpy, terminate}
use kaplarc.Memory.Outbuf.{Outbuf}
use kaplarc.Server.Connection.State.{Status}
use kaplarc.Protocol.Login.{
  LoginInfo, World, Env, Answers, c_string, on_recv_first_message, rsa_decoded, start_login,
  decode_key, decode_names, queue_login, database_resolve_login,
}
use kaplarc.Protocol.Login.Deliver.{Wrapped, outbuf_wrap_lem}
use kaplarc.Protocol.Login.Refuse.{Known, Refused, database_resolve_login-Refused}
use kaplarc.Protocol.Login.First.{IsSound, Answered, on_recv_first_message-Answered}

abbrev zero_key : List ℕ
zero_key = replicate 4 0

outbuf_wrap_lem_example : Wrapped zero_key (1 ∷ 2 ∷ 3 ∷ []) (record {
  ptr = 11;
  base = 9 ∷ 9 ∷ 9 ∷ 9 ∷ 9 ∷ 9 ∷ 9 ∷ 9 ∷ 1 ∷ 2 ∷ 3 ∷ 0 ∷ 0 ∷ 0 ∷ 0 ∷ 0 ∷ 0 ∷ 0 ∷ [];
})
outbuf_wrap_lem_example =
    outbuf_wrap_lem zero_key (1 ∷ 2 ∷ 3 ∷ []) (replicate 7 0) 9 9 9 9 9 9 9 9 (omega arith)
      (omega arith) (omega arith) (omega arith)

abbrev blank_login : LoginInfo
blank_login = record {
  output = none;
  connection = 0;
  xtea = zero_key;
  accname = replicate 32 0;
  password = replicate 32 0;
}

abbrev fresh_buffer : Outbuf
fresh_buffer = record { ptr = 0; base = replicate 16368 0 }

abbrev accepting : Env
accepting = record {
  tibia_rsa_decode = λ p n. some (p, 127);
  malloc = blank_login;
  fresh = fresh_buffer;
  db_accepts = true;
}

accepting-IsSound : IsSound accepting
accepting-IsSound = record {
  plain = λ p n q e. cc;
  accname_size = refl;
  password_size = refl;
  fresh_bytes = All-replicate {A = ℕ} (λ b. b < 256) 16368 0 (omega arith);
  fresh_size = length-replicate {A = ℕ} 16368 0;
}

abbrev idle_world : World
idle_world = record {
  userdata = λ c. if c == 7 then some none else none;
  sent = [];
  released = [];
  db_tasks = [];
  server_tasks = [];
}

-- Version 860, the account "ab" and the password "xyz".
abbrev first_message : List ℕ
first_message =
    replicate 7 0
    ++ (92 ∷ 3 ∷ [])
    ++ replicate 28 0
    ++ (2 ∷ 0 ∷ 97 ∷ 98 ∷ 3 ∷ 0 ∷ 120 ∷ 121 ∷ 122 ∷ [])
    ++ replicate 103 0

on_recv_first_message-Answered_example :
    Answered idle_world 7 (on_recv_first_message accepting idle_world 7 first_message 149)
on_recv_first_message-Answered_example =
    on_recv_first_message-Answered accepting idle_world 7 first_message 149 accepting-IsSound
      (omega arith)

abbrev empty_database : Answers
empty_database = record {
  db_load_account_info = λ name. none;
  db_load_account_charlist = λ id. none;
  motd = [];
  sv_name = [];
  sv_game_port = 7172;
  fresh = fresh_buffer;
  accepted = true;
}

unknown_account : ¬ (Known blank_login none)
unknown_account = λ e. e

database_resolve_login-Refused_example :
    Refused empty_database idle_world blank_login
      (database_resolve_login empty_database idle_world blank_login)
database_resolve_login-Refused_example =
    database_resolve_login-Refused empty_database idle_world blank_login
      (All-replicate {A = ℕ} (λ b. b < 256) 16368 0 (omega arith))
      (length-replicate {A = ℕ} 16368 0) (inr unknown_account)

-- The names of the logins that are queued.
abbrev queued_names : Option (Status × World) → List (List ℕ × List ℕ)
queued_names none = []
queued_names (some (answer, w)) =
    map (λ login. (c_string login.accname, c_string login.password)) w.db_tasks

queued_names_run :
    queued_names (on_recv_first_message accepting idle_world 7 first_message 149)
    ≡ (97 ∷ 98 ∷ [], 120 ∷ 121 ∷ 122 ∷ []) ∷ []
unfolding c_string on_recv_first_message rsa_decoded start_login decode_key decode_names queue_login
    decode_u16_le decode_u32_le decode_tibia_string memcpy terminate
queued_names_run = refl
