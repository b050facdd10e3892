-- ===== src/Config/Tests.antt =====
-- src/config.c: the argument "motd=Hi" where the key has the slot that its hash names.
use kaplarc.Base.{ℕ, ◌≡◌, ◌≢◌, arith, refl, some, List, [], ◌∷◌, All}
use kaplarc.Checksum.Murmur.{murmur2_32, mix_words, mix_word, mix_rest, final_mix}
use kaplarc.Codec.Portable.{decode_u32_le}
use kaplarc.Config.{
  Var, empty_table, put_var, config_var_idx, config_var_find, find_from, strncmp_is_zero,
  set_from_argv, config_get,
}
use kaplarc.Config.Get.{assignment, config_get-set_from_argv}

abbrev motd : List ℕ
motd = 109 ∷ 111 ∷ 116 ∷ 100 ∷ []

abbrev no_equal : All (λ c. c ≢ 61) motd
no_equal = (omega arith, (omega arith, (omega arith, (omega arith, tt))))

motd_idx : config_var_idx motd 4 ≡ some 237
unfolding config_var_idx murmur2_32 mix_words mix_word mix_rest final_mix decode_u32_le
motd_idx = refl

abbrev table : ℕ → Var
table = put_var empty_table 237 (record { key = motd; value = 49 ∷ [] })

motd_found : config_var_find table motd 4 ≡ some (some 237)
unfolding config_var_find find_from strncmp_is_zero config_var_idx murmur2_32 mix_words mix_word
    mix_rest final_mix decode_u32_le
motd_found = refl

config_get-set_from_argv_example :
    (table' : ℕ → Var) × (set_from_argv table (assignment motd (72 ∷ 105 ∷ [])) ≡ some table')
    × (config_get table' motd ≡ some (72 ∷ 105 ∷ []))
config_get-set_from_argv_example =
    config_get-set_from_argv table motd (72 ∷ 105 ∷ []) 237 no_equal (omega arith) motd_found
