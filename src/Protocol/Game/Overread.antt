-- ===== src/Protocol/Game/Overread.antt =====
-- The names in the first message of src/protocol_game.c: when the first is too long the second is
-- skipped, and its size 0 lets the third be read, behind the first.
use kaplarc.Base.{
  ℕ, suc, ◌+◌, ◌-◌, ◌%◌, ◌^◌, ◌≤◌, ◌<◌, ◌≡◌, refl, ap, ◌∙◌, arith, none, some, List, [], ◌∷◌, ◌++◌,
  drop, take, length, length-drop, min, u16, lt→ltb, ◌==◌,
}
use kaplarc.Codec.Portable.{decode_u8, decode_u16_le}
use kaplarc.Codec.TibiaString.{decode_tibia_string, decode_tibia_string_cut}
use kaplarc.Protocol.Login.Names.{decode_key-some}
use kaplarc.Protocol.Game.{
  GameLogin, Env, decode_after, decode_three, names_decoded, start_login, rsa_decoded,
  on_recv_first_message,
}

-- A string whose length does not lie in the memory.
decode_tibia_string-none :
    (input out : List ℕ) (maxlen : ℕ)
    → length input < 2
    → decode_tibia_string input out maxlen ≡ none
unfolding decode_tibia_string decode_u16_le
decode_tibia_string-none [] out maxlen h = refl
decode_tibia_string-none (d0 ∷ []) out maxlen h = refl
decode_tibia_string-none (d0 ∷ d1 ∷ rest) out maxlen h = absurd (omega arith)

decode_u8-some : (p : List ℕ) → 1 ≤ length p → (b : ℕ) × (decode_u8 p ≡ some b)
unfolding decode_u8
decode_u8-some (b ∷ p) h = (b, refl)
decode_u8-some [] h = absurd (omega arith)

decode_three-none :
    (p : List ℕ) (login : GameLogin) (len : ℕ)
    → 128 ≤ length p
    → length login.accname ≡ 32
    → decode_u16_le (drop 17 p) ≡ some len
    → len < 2 ^ 16 - 2
    → length p ≤ len + 20
    → decode_three p login ≡ none
unfolding decode_three decode_after
decode_three-none p login len room size e small beyond =
    let name =
      take (min len 31) (drop 2 (drop 17 p)) ++ (0 ∷ drop (suc (min len 31)) login.accname) in
    let first : decode_tibia_string (drop 17 p) login.accname 32 ≡ some (name, len + 2) =
      decode_tibia_string_cut (drop 17 p) login.accname len 32 e (ground (arith, length-drop 17 p))
        (omega arith) (omega arith)
      ∙ ap (λ (k : ℕ). some (name, k)) {x = (len + 2) % 2 ^ 16} {y = len + 2} (omega arith) in
    let third : decode_tibia_string (drop (17 + u16 (len + 2 + 0)) p) login.password 32 ≡ none =
      decode_tibia_string-none (drop (17 + u16 (len + 2 + 0)) p) login.password 32
        (omega (arith, length-drop (17 + u16 (len + 2 + 0)) p)) in
    rw (first, lt→ltb 32 (len + 2) (omega arith), third) refl

-- A message of the right size and version, whose decoded block is followed by `length p - 128` bytes
-- of the input buffer and gives its first name a length that leads behind them, makes the handler
-- read outside that buffer.
pub on_recv_first_message-overreads :
    (env : Env) (input p : List ℕ) (len : ℕ)
    → length env.malloc.accname ≡ 32
    → decode_u16_le (drop 7 input) ≡ some 860
    → env.tibia_rsa_decode (drop 9 input) 128 ≡ some (p, 127)
    → 128 ≤ length p
    → decode_u16_le (drop 17 p) ≡ some len
    → length p ≤ len + 20
    → len < 2 ^ 16 - 2
    → on_recv_first_message env input 137 ≡ none
unfolding on_recv_first_message rsa_decoded start_login names_decoded
on_recv_first_message-overreads env input p len size version plain room name beyond small =
    let (key, e, _) = decode_key-some p (omega arith) in
    let (flag, f) = decode_u8-some (drop 16 p) (omega (arith, length-drop 16 p)) in
    let login = record env.malloc { xtea = key; gm_flag = flag == 0x01 } in
    rw (version, plain, e, f, decode_three-none p login len room size name small beyond) refl
