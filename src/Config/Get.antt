-- ===== src/Config/Get.antt =====
-- src/config.c: a variable that the command line sets has that value.
use kaplarc.Base.{
  ℕ, zero, suc, ◌-◌, ◌<◌, ◌≡◌, ◌≢◌, arith, refl, sym, ◌∙◌, ap, ◌&&◌, Option, some, List, [], ◌∷◌,
  ◌++◌, length, take, drop, leb, ◌==◌, ==_refl, ne→==_false, if◌then◌else◌, if_either, ◌>>=◌, All,
  take_all,
}
use kaplarc.Checksum.Murmur.Reads.{murmur2_32_lem}
use kaplarc.Config.{
  Var, max_collisions, max_value_length, config_var_idx, strncmp_is_zero, next_idx, find_from,
  config_var_find, config_var_set_value, key_length, skip_equal, parse_argv, value_of, set_found,
  set_from_argv, value_at, config_get,
}

-- The argument `key=val`.
abbrev pub assignment : List ℕ → List ℕ → List ℕ
assignment key val = key ++ (61 ∷ val)

key_length-assignment :
    (key val : List ℕ) → All (λ c. c ≢ 61) key → key_length (assignment key val) ≡ length key
unfolding key_length
key_length-assignment [] val h = refl
key_length-assignment (c ∷ key) val h =
    rw (ne→==_false c 61 h.0) (ap suc (key_length-assignment key val h.1))

drop_key : (key rest : List ℕ) → drop (length key) (key ++ rest) ≡ rest
drop_key [] rest = refl
drop_key (c ∷ key) rest = drop_key key rest

-- An argument is split at its first `=`.
pub parse_argv-assignment :
    (key val : List ℕ) → All (λ c. c ≢ 61) key → parse_argv (assignment key val) ≡ (length key, val)
unfolding parse_argv skip_equal
parse_argv-assignment key val h = rw (key_length-assignment key val h, drop_key key (61 ∷ val)) refl

-- Only the key of the argument is compared and hashed.
strncmp_alone :
    (a key rest : List ℕ)
    → strncmp_is_zero a (key ++ rest) (length key) ≡ strncmp_is_zero a key (length key)
unfolding strncmp_is_zero
strncmp_alone a [] rest = refl
strncmp_alone [] (c ∷ key) rest = refl
strncmp_alone (x ∷ a) (c ∷ key) rest = ap (λ b. x == c && b) (strncmp_alone a key rest)

find_from_alone :
    (tries : ℕ) (table : ℕ → Var) (key rest : List ℕ) (idx : ℕ)
    → find_from tries table (key ++ rest) (length key) idx
      ≡ find_from tries table key (length key) idx
unfolding find_from
find_from_alone zero table key rest idx = refl
find_from_alone (suc tries) table key rest idx =
    rw (strncmp_alone (table idx).key key rest, find_from_alone tries table key rest (next_idx idx))
      refl

idx_alone :
    (key rest : List ℕ)
    → config_var_idx (key ++ rest) (length key) ≡ config_var_idx key (length key)
unfolding config_var_idx
idx_alone key rest = let (h, e, e') = murmur2_32_lem key rest 0xC2EDF02D in rw (e, e') refl

find_alone :
    (table : ℕ → Var) (key rest : List ℕ)
    → config_var_find table (key ++ rest) (length key) ≡ config_var_find table key (length key)
unfolding config_var_find
find_alone table key rest = rw (idx_alone key rest) (
    ap (λ (f : ℕ → Option ℕ). config_var_idx key (length key) >>= λ idx. some (f idx))
      (λ i idx. find_from_alone max_collisions table key rest idx i))

-- Setting a value moves no variable.
set_value_key :
    (table : ℕ → Var) (i j : ℕ) (val : List ℕ)
    → (config_var_set_value table i val j).key ≡ (table j).key
unfolding config_var_set_value
set_value_key table i j val = ground arith

find_from_set :
    (tries : ℕ) (table : ℕ → Var) (i : ℕ) (val key : List ℕ) (n idx : ℕ)
    → find_from tries (config_var_set_value table i val) key n idx ≡ find_from tries table key n idx
unfolding find_from
find_from_set zero table i val key n idx = refl
find_from_set (suc tries) table i val key n idx =
    rw (set_value_key table i idx val, find_from_set tries table i val key n (next_idx idx)) refl

find_set :
    (table : ℕ → Var) (i : ℕ) (val key : List ℕ) (n : ℕ)
    → config_var_find (config_var_set_value table i val) key n ≡ config_var_find table key n
unfolding config_var_find
find_set table i val key n =
    ap (λ (f : ℕ → Option ℕ). config_var_idx key n >>= λ idx. some (f idx))
      (λ j idx. find_from_set max_collisions table i val key n idx j)

value_kept :
    (v : List ℕ)
    → take (if leb max_value_length (length v) then max_value_length - 1 else length v) v
      ≡ take 127 v
value_kept v =
    if_either (λ n. take n v ≡ take 127 v) (leb max_value_length (length v)) _ _ (λ _. refl)
      (λ h. take_all (length v) v (omega arith) ∙ sym (take_all 127 v (ground arith)))

set_value_value :
    (table : ℕ → Var) (i : ℕ) (v : List ℕ) → (config_var_set_value table i v i).value ≡ take 127 v
unfolding config_var_set_value
set_value_value table i v = rw (==_refl i) (value_kept v)

-- An argument `key=val` whose key is in the table, is not empty and has no `=`, leaves a table in
-- which that key has the value `val`, or "true" when it is empty, of which at most 127 bytes are
-- kept.
pub config_get-set_from_argv :
    (table : ℕ → Var) (key val : List ℕ) (i : ℕ)
    → All (λ c. c ≢ 61) key
    → 0 < length key
    → config_var_find table key (length key) ≡ some (some i)
    → (table' : ℕ → Var) × (set_from_argv table (assignment key val) ≡ some table')
      × (config_get table' key ≡ some (take 127 (value_of val)))
unfolding set_from_argv set_found config_get value_at
config_get-set_from_argv table key val i h pos e =
    let table' = config_var_set_value table i (value_of val) in
    (
      table',
      rw
          (
            parse_argv-assignment key val h,
            ne→==_false (length key) 0 (omega arith),
            find_alone table key (61 ∷ val),
            e,
          )
          refl,
      rw (find_set table i (value_of val) key (length key), e)
          (ap some (set_value_value table i (value_of val))),
    )
