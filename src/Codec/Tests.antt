-- ===== src/Codec/Tests.antt =====
-- src/buffer_util.h at concrete memory.
use kaplarc.Base.{ℕ, ◌≡◌, refl, arith, some, List, [], ◌∷◌}
use kaplarc.Codec.Portable
use kaplarc.Codec.TibiaString.{decode_tibia_string, decode_tibia_string_lem}

-- Three letters, into a buffer of three bytes.
abbrev message : List ℕ
message = 3 ∷ 0 ∷ 97 ∷ 98 ∷ 99 ∷ 7 ∷ []

message_size : Portable.decode_u16_le message ≡ some 3
unfolding Portable.decode_u16_le
message_size = refl

decode_tibia_string_lem_example :
    decode_tibia_string message (9 ∷ 9 ∷ 9 ∷ 9 ∷ []) 3 ≡ some (97 ∷ 98 ∷ 0 ∷ 9 ∷ [], 5)
decode_tibia_string_lem_example =
    decode_tibia_string_lem message (9 ∷ 9 ∷ 9 ∷ 9 ∷ []) 3 3 message_size (omega arith)
      (omega arith) (omega arith)
