-- ===== src/Memory/Arena/Tests.antt =====
-- src/mem_arena.c: an arena with one block of 64 bytes, of which 8 are handed out.
use kaplarc.Base.{◌≡◌, arith, refl, some, [], ◌∷◌}
use kaplarc.Memory.Arena.{Block, Arena, Given, mem_arena_alloc}
use kaplarc.Memory.Arena.Alloc.{IsBlock, IsArena, Answered, mem_arena_alloc_lem, some-injective}

abbrev used_block : Block
used_block = record { mem_prev = some 0; mem_ptr = 8; mem_end = 64 }

abbrev small_arena : Arena
small_arena = record { block_size = 64; blocks = used_block ∷ [] }

used-IsBlock : IsBlock used_block
used-IsBlock = record {
  inside = omega arith;
  aligned = refl;
  before = λ p e. let same = some-injective 0 p e in (omega arith, omega arith);
}

small-IsArena : IsArena small_arena
small-IsArena = record { some_room = omega arith; small = omega arith; blocks = (used-IsBlock, tt) }

mem_arena_alloc_lem_example :
    (r : Given × Arena) × (mem_arena_alloc small_arena 13 ≡ some r)
    × IsArena r.1
    × Answered small_arena 13 r
mem_arena_alloc_lem_example = mem_arena_alloc_lem small_arena 13 small-IsArena (omega arith)
