-- ===== src/Memory/Arena.antt =====
-- src/mem_arena.c. A pointer into a block is its offset from `mem_start`; a block is known by its
-- place in the list.
pub mod Alloc
mod Tests
use kaplarc.Base.{
  ℕ, ◌+◌, ◌-◌, ◌*◌, ◌/◌, ◌%◌, ◌^◌, Bool, true, false, Option, none, some, List, [], ◌∷◌, u64,
  bit_and, ltb, leb, ◌==◌, if◌then◌else◌, ◌>>=◌,
}

-- PTR_ALIGN of src/common.h, for pointers of eight bytes: (x + 8) & ~7.
unfoldable pub ptr_align : ℕ → ℕ
ptr_align x = if bit_and x 7 == 0 then x else bit_and (u64 (x + 8)) ((2 ^ 61 - 1) * 2 ^ 3)

-- `struct mem_arena_block`; `mem_end` is the offset of the end.
pub record Block : Type 0 where
  pub mem_prev : Option ℕ
  pub mem_ptr : ℕ
  pub mem_end : ℕ

-- `struct mem_arena`, with the list that starts at `head`.
pub record Arena : Type 0 where
  pub block_size : ℕ
  pub blocks : List Block

unfoldable pub mem_arena_block_create : ℕ → Block
unfolding ptr_align
mem_arena_block_create block_size = record {
  mem_prev = none;
  mem_ptr = 0;
  mem_end = ptr_align block_size;
}

-- The pointer and the block that is left; `none` is NULL.
unfoldable pub mem_arena_block_alloc : Block → ℕ → Option (ℕ × Block)
mem_arena_block_alloc blk size =
    let nextptr = blk.mem_ptr + size in
    if leb blk.mem_end nextptr
    then none
    else some (blk.mem_ptr, record blk { mem_prev = some blk.mem_ptr; mem_ptr = nextptr })

-- What an allocation gives: NULL, or a pointer into the block at the head of the arena it leaves.
pub data Given : Type 0 where
  null : Given
  pointer : ℕ → Given

-- A new block at the head; `none` is the failed assertion.
unfoldable pub alloc_new : Arena → List Block → ℕ → Option (Given × Arena)
alloc_new arena blocks size =
    mem_arena_block_alloc (mem_arena_block_create arena.block_size) size >>= λ r.
    some (Given.pointer r.0, record arena { blocks = r.1 ∷ blocks })

-- The test of the pointer that the head `blk` gave.
unfoldable pub head_or_new :
    Arena → Block → List Block → ℕ → Option (ℕ × Block) → Option (Given × Arena)
head_or_new arena blk rest size none = alloc_new arena (blk ∷ rest) size
head_or_new arena blk rest size (some r) =
    some (Given.pointer r.0, record arena { blocks = r.1 ∷ rest })

-- The block at the head, and a new one when it has no room.
unfoldable pub alloc_head : Arena → Block → List Block → ℕ → Option (Given × Arena)
alloc_head arena blk rest size = head_or_new arena blk rest size (mem_arena_block_alloc blk size)

-- The first block is created when there is none.
unfoldable pub alloc_from : Arena → List Block → ℕ → Option (Given × Arena)
alloc_from arena [] size = alloc_head arena (mem_arena_block_create arena.block_size) [] size
alloc_from arena (blk ∷ rest) size = alloc_head arena blk rest size

unfoldable pub mem_arena_alloc : Arena → ℕ → Option (Given × Arena)
mem_arena_alloc arena size =
    let aligned = ptr_align size in
    if ltb (arena.block_size / 2) aligned
    then some (Given.null, arena)
    else alloc_from arena arena.blocks aligned

unfoldable pub mem_arena_rollback : Arena → Arena
mem_arena_rollback arena = elim arena.blocks [
  | [] ↦ arena
  | blk ∷ rest ↦ elim blk.mem_prev [
    | none ↦ arena
    | some prev ↦ record arena { blocks = record blk { mem_prev = none; mem_ptr = prev } ∷ rest }
  ]
]

unfoldable pub mem_arena_reset : Arena → Arena
mem_arena_reset arena = elim arena.blocks [
  | [] ↦ arena
  | blk ∷ rest ↦ record arena { blocks = record blk { mem_prev = none; mem_ptr = 0 } ∷ [] }
]

unfoldable pub mem_arena_cleanup : Arena → Arena
mem_arena_cleanup arena = record arena { blocks = [] }
