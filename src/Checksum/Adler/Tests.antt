-- ===== src/Checksum/Adler/Tests.antt =====
-- src/adler32.c on "abc".
use kaplarc.Base.{ℕ, ◌+◌, ◌*◌, ◌≡◌, arith, some, List, [], ◌∷◌, take}
use kaplarc.Checksum.Adler.{Sums, adler32}
use kaplarc.Checksum.Adler.Chunk.{steps}
use kaplarc.Checksum.Adler.Spec.{adler32_lem}

abbrev abc : List ℕ
abc = 97 ∷ 98 ∷ 99 ∷ []

abbrev sums : Sums
sums = steps (record { a = 1; b = 0 }) (take 3 abc)

adler32_lem_example : adler32 abc 3 ≡ some (sums.b * 65536 + sums.a)
adler32_lem_example =
    adler32_lem abc 3 (omega arith) (omega arith, (omega arith, (omega arith, tt)))
