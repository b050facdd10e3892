-- ===== src/Memory/Arena/Alloc.antt =====
-- src/mem_arena.c: an allocation is aligned, inside its block, and above all that was handed out of
-- it before.
use kaplarc.Base.{
  ℕ, ◌+◌, ◌*◌, ◌/◌, ◌%◌, ◌^◌, ◌≤◌, ◌<◌, ◌≡◌, ◌⊎◌, inl, inr, arith, refl, subst, Option, none, some,
  List, [], ◌∷◌, u64, ltb, if_either, All, le→leb, lt→leb_false,
}
use kaplarc.Base.Bits.{and_ones_mod, and_ones_shifted}
use kaplarc.Memory.Arena.{
  ptr_align, Block, Arena, mem_arena_block_create, mem_arena_block_alloc, Given, alloc_new,
  alloc_head, head_or_new, alloc_from, mem_arena_alloc,
}

-- The least multiple of eight from `x` on.
pub ptr_align_lem : (x : ℕ) → x + 8 < 2 ^ 64 → ptr_align x ≡ (x + 7) / 8 * 8
unfolding ptr_align
ptr_align_lem x h = ground (arith, and_ones_mod 3 x, and_ones_shifted 3 61 (u64 (x + 8)))

pub record IsBlock (blk : Block) : Type 0 where
  pub inside : blk.mem_ptr ≤ blk.mem_end
  pub aligned : blk.mem_ptr % 8 ≡ 0
  pub before : (p : ℕ) → blk.mem_prev ≡ some p → (p ≤ blk.mem_ptr) × (p % 8 ≡ 0)

pub record IsArena (arena : Arena) : Type 0 where
  pub some_room : 0 < arena.block_size
  pub small : arena.block_size + 8 < 2 ^ 64
  pub blocks : All IsBlock arena.blocks

-- The bytes from `p` on that an allocation of `size` bytes got from `blk`, which left `blk'`.
pub record IsGiven (blk blk' : Block) (p size : ℕ) : Type 0 where
  pub fresh : p ≡ blk.mem_ptr
  pub multiple : p % 8 ≡ 0
  pub fits : p + size ≤ blk'.mem_ptr
  pub inside : blk'.mem_ptr < blk'.mem_end
  pub same_end : blk'.mem_end ≡ blk.mem_end

pub some-injective : {A : Type 0} (x y : A) → some x ≡ some y → x ≡ y
some-injective x y e = cc

block_full :
    (blk : Block) (size : ℕ)
    → blk.mem_end ≤ blk.mem_ptr + size
    → mem_arena_block_alloc blk size ≡ none
unfolding mem_arena_block_alloc
block_full blk size full = rw (le→leb blk.mem_end (blk.mem_ptr + size) full) refl

block_alloc_lem :
    (blk : Block) (size : ℕ)
    → IsBlock blk
    → size % 8 ≡ 0
    → blk.mem_ptr + size < blk.mem_end
    → let blk' = record blk { mem_prev = some blk.mem_ptr; mem_ptr = blk.mem_ptr + size } in
      (mem_arena_block_alloc blk size ≡ some (blk.mem_ptr, blk'))
      × IsBlock blk'
      × IsGiven blk blk' blk.mem_ptr size
unfolding mem_arena_block_alloc
block_alloc_lem blk size v eights room = (
  rw (lt→leb_false blk.mem_end (blk.mem_ptr + size) room) refl,
  record {
    inside = omega arith;
    aligned = omega (arith, v.aligned);
    before =
        λ p e. let same = some-injective blk.mem_ptr p e in (omega arith, omega (arith, v.aligned));
  },
  record {
    fresh = refl;
    multiple = v.aligned;
    fits = omega arith;
    inside = omega arith;
    same_end = refl;
  },
)

-- Where a pointer comes from: the block at the head, or a new one, and what is left of it.
pub record IsPointer (arena arena' : Arena) (p size : ℕ) : Type 0 where
  pub blk : Block
  pub blk' : Block
  pub rest : List Block
  pub left : arena'.blocks ≡ blk' ∷ rest
  pub given : IsGiven blk blk' p size
  pub from : (arena.blocks ≡ blk ∷ rest) ⊎ (blk ≡ mem_arena_block_create arena.block_size)

created-IsBlock : (block_size : ℕ) → IsBlock (mem_arena_block_create block_size)
unfolding mem_arena_block_create
created-IsBlock block_size = record {
  inside = omega arith;
  aligned = refl;
  before = λ p e. absurd (cc);
}

new_block_room :
    (block_size size : ℕ)
    → 0 < block_size
    → block_size + 8 < 2 ^ 64
    → size ≤ block_size / 2
    → (mem_arena_block_create block_size).mem_ptr + size
      < (mem_arena_block_create block_size).mem_end
unfolding mem_arena_block_create
new_block_room block_size size pos small h = rw (ptr_align_lem block_size small) (omega arith)

abbrev Points : Arena → ℕ → Option (Given × Arena) → Type 0
Points arena size r =
    (p : ℕ) × (arena' : Arena) × (r ≡ some (Given.pointer p, arena'))
    × IsArena arena'
    × IsPointer arena arena' p size

module _ (arena : Arena) (v : IsArena arena) (size : ℕ) where
  alloc_new_lem :
      (blocks : List Block)
      → All IsBlock blocks
      → size % 8 ≡ 0
      → size ≤ arena.block_size / 2
      → Points arena size (alloc_new arena blocks size)
  unfolding alloc_new
  alloc_new_lem blocks bs eights h =
      let blk = mem_arena_block_create arena.block_size in
      let (e, b, g) =
        block_alloc_lem blk size (created-IsBlock arena.block_size) eights
          (new_block_room arena.block_size size v.some_room v.small h) in
      let blk' = record blk { mem_prev = some blk.mem_ptr; mem_ptr = blk.mem_ptr + size } in
      (
        blk.mem_ptr,
        record arena { blocks = blk' ∷ blocks },
        rw e refl,
        record { some_room = v.some_room; small = v.small; blocks = (b, bs) },
        record { blk = blk; blk' = blk'; rest = blocks; left = refl; given = g; from = inr refl },
      )

  order : (a b : ℕ) → (a ≤ b) ⊎ (b < a)
  order a b = ground arith

  alloc_head_lem :
      (blk : Block) (rest : List Block)
      → IsBlock blk
      → All IsBlock rest
      → size % 8 ≡ 0
      → size ≤ arena.block_size / 2
      → (arena.blocks ≡ blk ∷ rest) ⊎ (blk ≡ mem_arena_block_create arena.block_size)
      → Points arena size (alloc_head arena blk rest size)
  unfolding alloc_head head_or_new
  alloc_head_lem blk rest b bs eights h from = elim (order blk.mem_end (blk.mem_ptr + size)) [
    | inl full ↦ rw (block_full blk size full) (alloc_new_lem (blk ∷ rest) (b, bs) eights h)
    | inr room ↦
        let (e, b', g) = block_alloc_lem blk size b eights room in
        let blk' = record blk { mem_prev = some blk.mem_ptr; mem_ptr = blk.mem_ptr + size } in
        rw e (
          blk.mem_ptr,
          record arena { blocks = blk' ∷ rest },
          refl,
          record { some_room = v.some_room; small = v.small; blocks = (b', bs) },
          record { blk = blk; blk' = blk'; rest = rest; left = refl; given = g; from = from },
        )
  ]

-- The block at the head, or the first block.
alloc_from_lem :
    (arena : Arena) (size : ℕ) (bs : List Block)
    → IsArena arena
    → arena.blocks ≡ bs
    → size % 8 ≡ 0
    → size ≤ arena.block_size / 2
    → Points arena size (alloc_from arena bs size)
unfolding alloc_from
alloc_from_lem arena size [] v e eights h =
    alloc_head_lem arena v size (mem_arena_block_create arena.block_size) []
      (created-IsBlock arena.block_size) tt eights h (inr refl)
alloc_from_lem arena size (blk ∷ rest) v e eights h =
    let w = subst (All IsBlock) e v.blocks in
    alloc_head_lem arena v size blk rest w.0 w.1 eights h (inl e)

-- What a request for `size` bytes comes to.
abbrev pub Answered : Arena → ℕ → Given × Arena → Type 0
Answered arena size (Given.null, arena') =
    (arena' ≡ arena) × (arena.block_size / 2 < (size + 7) / 8 * 8)
Answered arena size (Given.pointer p, arena') =
    ((size + 7) / 8 * 8 ≤ arena.block_size / 2) × IsPointer arena arena' p ((size + 7) / 8 * 8)

-- In an arena in order, with blocks of at least one byte and sizes that do not overflow, a
-- request runs without a failed assertion and leaves the arena in order. It gives NULL exactly
-- when the size, rounded up to a multiple of eight, is more than half a block, and then changes
-- nothing; else it gives a multiple of eight whose bytes lie inside the block at the head, from
-- where the last allocation of it ended.
pub mem_arena_alloc_lem :
    (arena : Arena) (size : ℕ)
    → IsArena arena
    → size + 8 < 2 ^ 64
    → (r : Given × Arena) × (mem_arena_alloc arena size ≡ some r)
      × IsArena r.1
      × Answered arena size r
unfolding mem_arena_alloc
mem_arena_alloc_lem arena size v small = rw (ptr_align_lem size small) (
    if_either Runs (ltb (arena.block_size / 2) n) _ _
      (λ big. ((Given.null, arena), refl, v, (refl, ground arith)))
      (λ fits.
        pointed (ground arith)
          (alloc_from_lem arena n arena.blocks v refl (omega arith) (ground arith))))
  where
    n : ℕ
    n = (size + 7) / 8 * 8

    Runs : Option (Given × Arena) → Type 0
    Runs o = (r : Given × Arena) × (o ≡ some r) × IsArena r.1 × Answered arena size r

    pointed : {o : Option (Given × Arena)} → n ≤ arena.block_size / 2 → Points arena n o → Runs o
    pointed small_enough (p, arena', e, w, i) = ((Given.pointer p, arena'), e, w, (small_enough, i))
