-- ===== src/Protocol/Game/Tests.antt =====
-- src/protocol_game.c on a message that claims a name of 1004 bytes, at the front of an input buffer
-- of 1024; RSA is the identity.
use kaplarc.Base.{ℕ, ◌≡◌, refl, arith, false, none, some, List, [], ◌∷◌, ◌++◌, replicate}
use kaplarc.Codec.Portable.{decode_u16_le}
use kaplarc.Protocol.Game.{Env, on_recv_first_message}
use kaplarc.Protocol.Game.Overread.{on_recv_first_message-overreads}

abbrev plain_env : Env
plain_env = record {
  tibia_rsa_decode = λ p n. some (p, 127);
  malloc = record {
    xtea = [];
    gm_flag = false;
    accname = replicate 32 0;
    password = replicate 32 0;
    charname = replicate 32 0;
  };
}

abbrev block : List ℕ
block = replicate 17 0 ++ (236 ∷ 3 ∷ []) ++ replicate 996 0

abbrev long_message : List ℕ
long_message = replicate 7 0 ++ (92 ∷ 3 ∷ []) ++ block

version_lem : decode_u16_le (92 ∷ 3 ∷ block) ≡ some 860
unfolding decode_u16_le
version_lem = refl

name_lem : decode_u16_le (236 ∷ 3 ∷ replicate 996 0) ≡ some 1004
unfolding decode_u16_le
name_lem = refl

on_recv_first_message-overreads_example : on_recv_first_message plain_env long_message 137 ≡ none
on_recv_first_message-overreads_example =
    on_recv_first_message-overreads plain_env long_message block 1004 refl version_lem refl
      (omega arith) name_lem (omega arith) (omega arith)
