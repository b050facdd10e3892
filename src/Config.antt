-- ===== src/Config.antt =====
-- src/config.c: the table of configuration variables and the command line. A C string is the list
-- of its bytes before the NUL; `none` is a read past the end of one.
pub mod Get
mod Tests
use kaplarc.Base.{
  ℕ, zero, suc, ◌+◌, ◌-◌, ◌%◌, Bool, true, false, ◌&&◌, Option, none, some, List, [], ◌∷◌, ◌++◌,
  length, take, drop, leb, ◌==◌, if◌then◌else◌, ◌>>=◌,
}
use kaplarc.Checksum.Murmur.{murmur2_32}

abbrev pub max_value_length : ℕ
max_value_length = 128

abbrev pub max_collisions : ℕ
max_collisions = 2

abbrev pub max_config_vars : ℕ
max_config_vars = 256

-- `struct config_var`
pub record Var : Type 0 where
  pub key : List ℕ
  pub value : List ℕ

-- `config_table`, read from its index, after the `memset` of `config_init`.
abbrev pub empty_table : ℕ → Var
empty_table = λ _. record { key = []; value = [] }

abbrev pub put_var : (ℕ → Var) → ℕ → Var → ℕ → Var
put_var table i var j = if j == i then var else table j

unfoldable pub config_var_idx : List ℕ → ℕ → Option ℕ
config_var_idx key len = murmur2_32 key len 0xC2EDF02D >>= λ h. some (h % max_config_vars)

-- strncmp(a, b, n) == 0
unfoldable pub strncmp_is_zero : List ℕ → List ℕ → ℕ → Bool
strncmp_is_zero a b zero = true
strncmp_is_zero [] [] (suc n) = true
strncmp_is_zero [] (y ∷ b) (suc n) = false
strncmp_is_zero (x ∷ a) [] (suc n) = false
strncmp_is_zero (x ∷ a) (y ∷ b) (suc n) = x == y && strncmp_is_zero a b n

abbrev pub next_idx : ℕ → ℕ
next_idx idx = if leb max_config_vars (idx + 1) then 0 else idx + 1

-- `do … while(collisions < MAX_COLLISIONS)`, with the tries that are left; `none` is NULL.
unfoldable pub find_from : ℕ → (ℕ → Var) → List ℕ → ℕ → ℕ → Option ℕ
find_from zero table key keylen idx = none
find_from (suc tries) table key keylen idx =
    let rest = find_from tries table key keylen (next_idx idx) in
    if strncmp_is_zero (table idx).key key keylen then some idx else rest

unfoldable pub config_var_find : (ℕ → Var) → List ℕ → ℕ → Option (Option ℕ)
config_var_find table key keylen =
    config_var_idx key keylen >>= λ idx. some (find_from max_collisions table key keylen idx)

abbrev pub is_empty : List ℕ → Bool
is_empty [] = true
is_empty (x ∷ xs) = false

unfoldable pub insert_from : ℕ → (ℕ → Var) → ℕ → Option ℕ
insert_from zero table idx = none
insert_from (suc tries) table idx =
    let rest = insert_from tries table (next_idx idx) in
    if is_empty (table idx).key then some idx else rest

unfoldable pub config_var_insert : (ℕ → Var) → List ℕ → ℕ → Option (Option ℕ)
config_var_insert table key keylen =
    config_var_idx key keylen >>= λ idx. some (insert_from max_collisions table idx)

-- The bytes `val`, at most 127 of them, and a NUL.
unfoldable pub config_var_set_value : (ℕ → Var) → ℕ → List ℕ → ℕ → Var
config_var_set_value table i val =
    let vallen = if leb max_value_length (length val) then max_value_length - 1 else length val in
    put_var table i (record (table i) { value = take vallen val })

-- The characters before the first `=`.
unfoldable pub key_length : List ℕ → ℕ
key_length [] = 0
key_length (c ∷ argv) = let rest = key_length argv in if c == 61 then 0 else suc rest

-- The end of the argument, or what follows the `=`.
unfoldable pub skip_equal : ℕ → List ℕ → ℕ × List ℕ
skip_equal keylen [] = (keylen, [])
skip_equal keylen (c ∷ val) = (keylen, val)

-- The length of the key, and the value.
unfoldable pub parse_argv : List ℕ → ℕ × List ℕ
parse_argv argv = let keylen = key_length argv in skip_equal keylen (drop keylen argv)

-- The value of an argument: "true" when it has none.
abbrev pub value_of : List ℕ → List ℕ
value_of [] = 116 ∷ 114 ∷ 117 ∷ 101 ∷ []
value_of (c ∷ val) = c ∷ val

-- What the second loop of `config_init` does with the variable that an argument names.
unfoldable pub set_found : (ℕ → Var) → List ℕ → Option ℕ → ℕ → Var
set_found table val none = table
set_found table val (some i) = config_var_set_value table i (value_of val)

unfoldable pub set_from_argv : (ℕ → Var) → List ℕ → Option (ℕ → Var)
set_from_argv table argv =
    let (keylen, val) = parse_argv argv in
    if keylen == 0
    then some table
    else (config_var_find table argv keylen >>= λ o. some (set_found table val o))

unfoldable pub insert_default : (ℕ → Var) → Var → Option (ℕ → Var)
insert_default table var = config_var_insert table var.key (length var.key) >>= λ o.
    some (elim o [ none ↦ table | some i ↦ put_var table i var ])

unfoldable pub load_defaults : List Var → (ℕ → Var) → Option (ℕ → Var)
load_defaults [] table = some table
load_defaults (var ∷ vars) table = insert_default table var >>= λ table1. load_defaults vars table1

unfoldable pub parse_cmdline : List (List ℕ) → (ℕ → Var) → Option (ℕ → Var)
parse_cmdline [] table = some table
parse_cmdline (argv ∷ rest) table = set_from_argv table argv >>= λ table1. parse_cmdline rest table1

-- `args` is `argv` from its second element on.
unfoldable pub config_init : List Var → List (List ℕ) → Option (ℕ → Var)
config_init config_defaults args =
    load_defaults config_defaults empty_table >>= λ table. parse_cmdline args table

unfoldable pub value_at : (ℕ → Var) → Option ℕ → List ℕ
value_at table none = []
value_at table (some i) = (table i).value

unfoldable pub config_get : (ℕ → Var) → List ℕ → Option (List ℕ)
config_get table key = config_var_find table key (length key) >>= λ o. some (value_at table o)
