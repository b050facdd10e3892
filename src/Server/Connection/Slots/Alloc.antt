-- ===== src/Server/Connection/Slots/Alloc.antt =====
-- What `internal_alloc` does to a valid manager.
use kaplarc.Base.{
  ℕ, ◌+◌, ◌%◌, ◌^◌, ◌<◌, ◌≡◌, ◌≢◌, true, false, none, some, List, [], ◌∷◌, ◌==◌, arith, refl, sym,
  subst, ==_refl, bit_and, u16, ltb, ◌⊎◌, inl, inr, Bool-cases, ltb→lt, ltb_false→le,
}
use kaplarc.Server.Connection.State.{Conn, Mgr, put, max_connections, uint16_max}
use kaplarc.Server.Connection.Slots.{opened, internal_alloc}
use kaplarc.Server.Connection.Slots.Uid.{alloc_uid_lem, alloc_uid-ne, slot_lem}
use kaplarc.Server.Connection.Slots.Inv.{IsFreeList, IsAllocator, IsSlot, IsValid}
use kaplarc.Server.Connection.Slots.Inv.{chain_unused, put-IsSlot, ctl-put_ne}
use kaplarc.Server.Connection.Slots.Chain.{chain_put, uid_put}

-- A connection that was just taken.
opened-IsSlot :
    (i : ℕ) (c : Conn) → i < 2 ^ 16 → c.inuse ≡ false → IsSlot i c → IsSlot i (opened c i)
unfolding opened
opened-IsSlot i c h unused v = ground (arith, alloc_uid_lem c.uid i h)

opened-uid_lt : (c : Conn) (i : ℕ) → i < 2 ^ 16 → (opened c i).uid < 2 ^ 32
unfolding opened
opened-uid_lt c i h = omega (arith, alloc_uid_lem c.uid i h)

-- The head of the free list is taken.
take_free :
    (m : Mgr) (x : ℕ) (xs : List ℕ)
    → IsFreeList m (x ∷ xs)
    → IsFreeList (record (put m x (opened (m.ctl x) x)) { freelist = (m.ctl x).uid % 2 ^ 16 }) xs
unfolding opened
take_free m x xs v = record {
  chain =
      chain_put m x (opened (m.ctl x) x) m.next_unused_slot _ xs (omega arith) v.chain.3 v.chain.4;
  complete = λ j h f. ground (arith, v.complete j);
  untouched = λ j h. ground (arith, v.untouched j);
  bound = v.bound;
  uids = uid_put m x (opened (m.ctl x) x) (opened-uid_lt (m.ctl x) x (omega arith)) v.uids;
}

-- The slot after those that were ever used is taken.
take_fresh :
    (m : Mgr) (xs : List ℕ)
    → m.next_unused_slot < max_connections
    → IsFreeList m xs
    → IsFreeList
        (record (put m m.next_unused_slot (opened (m.ctl m.next_unused_slot) m.next_unused_slot)) {
          next_unused_slot = m.next_unused_slot + 1;
        })
        xs
unfolding opened
take_fresh m xs h v =
    let n = m.next_unused_slot in
    record {
      chain =
          chain_put m n (opened (m.ctl n) n) (n + 1) m.freelist xs (omega arith)
            (ground (arith, chain_unused m.ctl m.freelist xs n v.chain)) v.chain;
      complete = λ j k f. ground (arith, v.complete j);
      untouched = λ j k. ground (arith, v.untouched j);
      bound = omega arith;
      uids = uid_put m n (opened (m.ctl n) n) (opened-uid_lt (m.ctl n) n (omega arith)) v.uids;
    }

-- What an allocation gives: a slot that was not in use, under a uid that it did not have, with no
-- operation pending; the other slots are as they were, and the manager stays valid.
pub record IsOpened (m m' : Mgr) (i : ℕ) : Type 0 where
  pub valid : IsValid m'
  pub in_range : i < max_connections
  pub unused : (m.ctl i).inuse ≡ false
  pub used : (m'.ctl i).inuse ≡ true
  pub going : (m'.ctl i).closing ≡ false
  pub renamed : (m'.ctl i).uid ≢ (m.ctl i).uid
  pub no_work : (m'.ctl i).pending_work ≡ 0
  pub others : (j : ℕ) → j ≢ i → m'.ctl j ≡ m.ctl j

-- Both ways to take a slot write the same structure.
opening :
    (m : Mgr) (i head next : ℕ)
    → let m' : Mgr = record {
      ctl = (put m i (opened (m.ctl i) i)).ctl;
      freelist = head;
      next_unused_slot = next;
      log = m.log;
    } in
      i < max_connections
      → (m.ctl i).inuse ≡ false
      → (m.ctl i).uid < 2 ^ 32
      → IsAllocator m'
      → ((j : ℕ) → IsSlot j (m.ctl j))
      → IsOpened m m' i
unfolding opened
opening m i head next h unused u v slots =
    let c = opened (m.ctl i) i in
    record {
      valid = record {
        alloc = v;
        slots =
            put-IsSlot m i c (λ j _. slots j)
              (opened-IsSlot i (m.ctl i) (omega arith) unused (slots i));
      };
      in_range = h;
      unused = unused;
      used = rw (==_refl i);
      going = rw (==_refl i);
      renamed = rw (==_refl i) (alloc_uid-ne (m.ctl i).uid i (omega arith) u);
      no_work = rw (==_refl i) ((slots i).idle unused);
      others = ctl-put_ne m i c;
    }

abbrev Allocates : Mgr → Type 0
Allocates m =
    ((m' : Mgr) × (i : ℕ) × (internal_alloc m ≡ some (m', i)) × IsOpened m m' i)
    ⊎ ((internal_alloc m ≡ none) × ((i : ℕ) → i < max_connections → (m.ctl i).inuse ≡ true))

alloc_reused :
    (m : Mgr) (x : ℕ) (xs : List ℕ)
    → m.freelist ≡ x
    → IsFreeList m (x ∷ xs)
    → ((j : ℕ) → IsSlot j (m.ctl j))
    → Allocates m
unfolding internal_alloc
alloc_reused m x xs e v slots =
    let v' = subst (λ y. IsFreeList m (y ∷ xs)) (sym e) v in
    let head = (m.ctl m.freelist).uid % 2 ^ 16 in
    let same : head ≡ u16 (bit_and (m.ctl m.freelist).uid 0xFFFF) =
      omega (arith, slot_lem (m.ctl m.freelist).uid) in
    let some_slot : (m.freelist == uint16_max) ≡ false = ground (arith, v.chain.1, v.bound) in
    inl (
      record (put m m.freelist (opened (m.ctl m.freelist) m.freelist)) {
        freelist = u16 (bit_and (m.ctl m.freelist).uid 0xFFFF);
      },
      m.freelist,
      rw some_slot refl,
      opening m m.freelist (u16 (bit_and (m.ctl m.freelist).uid 0xFFFF)) m.next_unused_slot
          (omega (arith, v.chain.1, v.bound)) v'.chain.2 (v'.uids m.freelist)
          (record {
            free = xs;
            listed =
                subst
                  (λ h.
                    IsFreeList
                      (record (put m m.freelist (opened (m.ctl m.freelist) m.freelist)) {
                        freelist = h;
                      })
                      xs)
                  same (take_free m m.freelist xs v');
          })
          slots,
    )

alloc_fresh :
    (m : Mgr)
    → m.freelist ≡ uint16_max
    → IsFreeList m []
    → ((j : ℕ) → IsSlot j (m.ctl j))
    → Allocates m
unfolding internal_alloc
alloc_fresh m e v slots =
    let n = m.next_unused_slot in
    let none_free : (m.freelist == uint16_max) ≡ true = ground arith in
    elim (Bool-cases (ltb n max_connections)) [
      | inl room ↦ inl (
        record (put m n (opened (m.ctl n) n)) { next_unused_slot = n + 1 },
        n,
        rw (none_free, room) refl,
        opening m n m.freelist (n + 1) (ltb→lt n max_connections room) (v.untouched n (omega arith))
            (v.uids n)
            (record { free = []; listed = take_fresh m [] (ltb→lt n max_connections room) v })
            slots,
      )
      | inr full ↦ inr (
        rw (none_free, full) refl,
        λ i h. ground (arith, v.complete i, ltb_false→le n max_connections full),
      )
    ]

-- For a valid manager, either `internal_alloc` takes a slot below 4096 that was not in use, under
-- a uid that it did not have and with no operation pending, changes no other slot and leaves a
-- valid manager; or it returns NULL and every slot is in use.
pub internal_alloc_lem :
    (m : Mgr)
    → IsValid m
    → ((m' : Mgr) × (i : ℕ) × (internal_alloc m ≡ some (m', i)) × IsOpened m m' i)
      ⊎ ((internal_alloc m ≡ none) × ((i : ℕ) → i < max_connections → (m.ctl i).inuse ≡ true))
internal_alloc_lem m v = by_list v.alloc.free v.alloc.listed
  where
    by_list : (free : List ℕ) → IsFreeList m free → Allocates m
    by_list [] l = alloc_fresh m l.chain l v.slots
    by_list (x ∷ xs) l = alloc_reused m x xs l.chain.0 l v.slots
