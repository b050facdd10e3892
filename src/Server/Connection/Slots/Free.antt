-- ===== src/Server/Connection/Slots/Free.antt =====
-- What `internal_free` does to a valid manager.
use kaplarc.Base.{
  ℕ, ◌%◌, ◌^◌, ◌<◌, ◌≡◌, ◌≢◌, true, false, not, List, [], ◌∷◌, arith, sym, ◌∙◌, subst, ==_refl,
}
use kaplarc.Server.Connection.State.{Conn, Mgr, put, uint16_max}
use kaplarc.Server.Connection.Slots.{free_uid, internal_free}
use kaplarc.Server.Connection.Slots.Uid.{free_uid_lem, slot_lem}
use kaplarc.Server.Connection.Slots.Inv.{
  has, FreeChain, IsFreeList, IsAllocator, IsAccounted, IsSlot, IsValid,
}
use kaplarc.Server.Connection.Slots.Inv.{chain_unused, chain_head_lt, put-IsSlot, ctl-put_ne}
use kaplarc.Server.Connection.Slots.Chain.{chain_put, uid_put}

-- A slot in use is put at the head of the free list.
give_back :
    (m : Mgr) (i : ℕ) (xs : List ℕ)
    → (m.ctl i).inuse ≡ true
    → (m.ctl i).uid % 2 ^ 16 ≡ i
    → IsFreeList m xs
    → IsFreeList (internal_free m i) (i ∷ xs)
unfolding internal_free
give_back m i xs used named v =
    let c = record (m.ctl i) {
      uid = free_uid (m.ctl i).uid m.freelist;
      inuse = not (m.ctl i).inuse;
    } in
    let head_lt = chain_head_lt m.ctl m.freelist xs v.bound v.chain in
    let freed = free_uid_lem (m.ctl i).uid m.freelist head_lt (v.uids i) in
    let small : c.uid < 2 ^ 32 = omega (arith, freed, v.uids i) in
    let points : c.uid % 2 ^ 16 ≡ m.freelist = omega (arith, freed) in
    let unlisted : has i xs ≡ false = ground (arith, chain_unused m.ctl m.freelist xs i v.chain) in
    record {
      chain = (
        slot_lem (m.ctl i).uid ∙ named,
        ground (arith, v.untouched i),
        ground arith,
        unlisted,
        subst (λ u. FreeChain (put m i c).ctl m.next_unused_slot u xs) (rw (==_refl i) (sym points))
            (chain_put m i c m.next_unused_slot m.freelist xs (omega arith) unlisted v.chain),
      );
      complete = λ j h f. ground (arith, v.complete j);
      untouched = λ j h. ground (arith, v.untouched i, v.untouched j);
      bound = v.bound;
      uids = uid_put m i c small v.uids;
    }

-- The manager is valid once the slot is free.
pub internal_free-IsValid :
    (m : Mgr) (i : ℕ)
    → IsAllocator m
    → ((j : ℕ) → j ≢ i → IsSlot j (m.ctl j))
    → IsAccounted (m.ctl i)
    → (m.ctl i).inuse ≡ true
    → (m.ctl i).uid % 2 ^ 16 ≡ i
    → (m.ctl i).pending_work ≡ 0
    → IsValid (internal_free m i)
unfolding internal_free
internal_free-IsValid m i v others own used named no_work = record {
  alloc = record { free = i ∷ v.free; listed = give_back m i v.free used named v.listed };
  slots =
      put-IsSlot m i
        (record (m.ctl i) { uid = free_uid (m.ctl i).uid m.freelist; inuse = not (m.ctl i).inuse })
        others (ground arith);
}

chain_head_ne :
    (ctl : ℕ → Conn) (bound head i : ℕ) (xs : List ℕ)
    → FreeChain ctl bound head xs
    → (ctl i).inuse ≡ true
    → i < uint16_max
    → head ≢ i
chain_head_ne ctl bound head i [] chain used h = omega arith
chain_head_ne ctl bound head i (x ∷ xs) chain used h = λ e. ground arith

-- Freeing a slot takes its uid from it.
pub internal_free-uid_ne :
    (m : Mgr) (i : ℕ)
    → IsAllocator m
    → (m.ctl i).inuse ≡ true
    → (m.ctl i).uid % 2 ^ 16 ≡ i
    → ((internal_free m i).ctl i).uid ≢ (m.ctl i).uid
unfolding internal_free
internal_free-uid_ne m i v used named =
    let l = v.listed in
    let head_lt = chain_head_lt m.ctl m.freelist v.free l.bound l.chain in
    let below : i < uint16_max = ground (arith, l.untouched i, l.bound) in
    let elsewhere = chain_head_ne m.ctl m.next_unused_slot m.freelist i v.free l.chain used below in
    rw (==_refl i)
      (omega (arith, elsewhere, named, free_uid_lem (m.ctl i).uid m.freelist head_lt (l.uids i)))

-- What freeing slot `i` leaves: a valid manager in which the slot is not in use, stands at the head
-- of the free list and has lost its uid, with the other slots as they were.
pub record IsFreed (m m' : Mgr) (i : ℕ) : Type 0 where
  pub valid : IsValid m'
  pub unused : (m'.ctl i).inuse ≡ false
  pub first : m'.freelist ≡ i
  pub listed : (free : List ℕ) × IsFreeList m free × IsFreeList m' (i ∷ free)
  pub renamed : (m'.ctl i).uid ≢ (m.ctl i).uid
  pub others : (j : ℕ) → j ≢ i → m'.ctl j ≡ m.ctl j

-- Freeing a connection that is in use, bears the uid of its slot and has no operation pending,
-- where the allocator, the other slots and the accounts of the connection are in order: the slot is
-- no longer in use and is put at the head of the free list, in front of those that were there; its
-- uid changes, the other slots do not, and the manager is valid.
pub internal_free_lem :
    (m : Mgr) (i : ℕ)
    → IsAllocator m
    → ((j : ℕ) → j ≢ i → IsSlot j (m.ctl j))
    → IsAccounted (m.ctl i)
    → (m.ctl i).inuse ≡ true
    → (m.ctl i).uid % 2 ^ 16 ≡ i
    → (m.ctl i).pending_work ≡ 0
    → IsFreed m (internal_free m i) i
unfolding internal_free
internal_free_lem m i v others own used named no_work =
    let c = record (m.ctl i) {
      uid = free_uid (m.ctl i).uid m.freelist;
      inuse = not (m.ctl i).inuse;
    } in
    record {
      valid = internal_free-IsValid m i v others own used named no_work;
      unused = ground arith;
      first = slot_lem (m.ctl i).uid ∙ named;
      listed = (v.free, v.listed, give_back m i v.free used named v.listed);
      renamed = internal_free-uid_ne m i v used named;
      others = ctl-put_ne m i c;
    }
