-- ===== src/Checksum/Murmur/Tests.antt =====
-- src/murmur2.c on a key of the configuration.
use kaplarc.Base.{ℕ, List, [], ◌∷◌}

-- "motd", and "motd=1".
abbrev key : List ℕ
key = 109 ∷ 111 ∷ 116 ∷ 100 ∷ []
