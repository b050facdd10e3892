-- ===== src/Server/Connection/Slots/Inv.antt =====
-- The representation invariant of the connection slots.
use kaplarc.Base.{
  ℕ, ◌+◌, ◌%◌, ◌^◌, ◌≤◌, ◌<◌, ◌≡◌, ◌≢◌, Bool, true, false, ◌||◌, none, List, [], ◌∷◌, ◌==◌, arith,
  refl, sym, ◌∙◌, subst, ℕ_discrete, ==_refl, ne→==_false,
}
use kaplarc.Server.Connection.State.{
  Conn, Mgr, put, initial, max_connections, uint16_max, conn_input_buffer_size,
}

abbrev pub has : ℕ → List ℕ → Bool
has i [] = false
has i (x ∷ xs) = (i == x) || has i xs

-- From `head` the low halves of the uids lead through the distinct free slots `xs`.
abbrev pub FreeChain : (ℕ → Conn) → ℕ → ℕ → List ℕ → Type 0
FreeChain ctl bound head [] = head ≡ uint16_max
FreeChain ctl bound head (x ∷ xs) =
    (head ≡ x)
    × (x < bound)
    × ((ctl x).inuse ≡ false)
    × (has x xs ≡ false)
    × FreeChain ctl bound ((ctl x).uid % 2 ^ 16) xs

-- The allocator: the free list holds exactly the slots below `next_unused_slot` that are not in
-- use, no slot from there on is in use, and every uid is a uint32.
pub record IsFreeList (m : Mgr) (free : List ℕ) : Type 0 where
  pub chain : FreeChain m.ctl m.next_unused_slot m.freelist free
  pub complete : (i : ℕ) → i < m.next_unused_slot → (m.ctl i).inuse ≡ false → has i free ≡ true
  pub untouched : (i : ℕ) → m.next_unused_slot ≤ i → (m.ctl i).inuse ≡ false
  pub bound : m.next_unused_slot ≤ max_connections
  pub uids : (i : ℕ) → (m.ctl i).uid < 2 ^ 32

pub record IsAllocator (m : Mgr) : Type 0 where
  pub free : List ℕ
  pub listed : IsFreeList m free

-- The accounts of one slot: `pending_work` counts the operations that the operating system holds,
-- at most one read and one write, and a write has a protocol to report to.
pub record IsAccounted (c : Conn) : Type 0 where
  pub pending : c.pending_work ≡ c.length_reads + c.body_reads + c.writes
  pub one_read : c.length_reads + c.body_reads ≤ 1
  pub fits : c.read_len ≤ conn_input_buffer_size
  pub body_fits : c.bodylen ≤ conn_input_buffer_size
  pub one_write : c.writes ≤ 1
  pub in_progress : 0 < c.writes → c.output_in_progress ≡ true
  pub reports : 0 < c.writes → c.proto ≢ none

pub record IsSlot (i : ℕ) (c : Conn) : Type 0 where
  pub accounted : IsAccounted c
  pub named : c.inuse ≡ true → c.uid % 2 ^ 16 ≡ i
  pub idle : c.inuse ≡ false → c.pending_work ≡ 0
  pub busy : c.inuse ≡ true → c.closing ≡ true → 0 < c.pending_work

pub record IsValid (m : Mgr) : Type 0 where
  pub alloc : IsAllocator m
  pub slots : (i : ℕ) → IsSlot i (m.ctl i)

pub initial-IsValid : IsValid initial
initial-IsValid = record {
  alloc = record {
    free = [];
    listed = record {
      chain = refl;
      complete = λ i h _. absurd (omega arith);
      untouched = λ i _. refl;
      bound = omega arith;
      uids = λ i. omega arith;
    };
  };
  slots = λ i. ground arith;
}

module _ {bound : ℕ} where
  -- A chain reads its own slots alone.
  pub chain_frame :
      (ctl ctl' : ℕ → Conn) (bound' head : ℕ) (xs : List ℕ)
      → bound ≤ bound'
      → ((j : ℕ)
          → has j xs ≡ true
          → ((ctl' j).inuse ≡ (ctl j).inuse) × ((ctl' j).uid ≡ (ctl j).uid))
      → FreeChain ctl bound head xs
      → FreeChain ctl' bound' head xs
  chain_frame ctl ctl' bound' head [] le same chain = chain
  chain_frame ctl ctl' bound' head (x ∷ xs) le same (at, below, unused, once, rest) =
      let here = same x (ground arith) in
      (
        at,
        omega arith,
        here.0 ∙ unused,
        once,
        subst (λ u. FreeChain ctl' bound' (u % 2 ^ 16) xs) (sym here.1)
            (chain_frame ctl ctl' bound' ((ctl x).uid % 2 ^ 16) xs le (λ j h. same j (ground arith))
              rest),
      )

  pub chain_unused :
      (ctl : ℕ → Conn) (head : ℕ) (xs : List ℕ) (j : ℕ)
      → FreeChain ctl bound head xs
      → has j xs ≡ true
      → ((ctl j).inuse ≡ false) × (j < bound)
  chain_unused ctl head [] j chain h = absurd (cc)
  chain_unused ctl head (x ∷ xs) j chain h =
      ground (arith, chain_unused ctl ((ctl x).uid % 2 ^ 16) xs j chain.4)

  pub chain_head_lt :
      (ctl : ℕ → Conn) (head : ℕ) (xs : List ℕ)
      → bound ≤ max_connections
      → FreeChain ctl bound head xs
      → head < 2 ^ 16
  chain_head_lt ctl head [] le chain = omega arith
  chain_head_lt ctl head (x ∷ xs) le chain = omega arith

-- A change of slot `i` that keeps its uid and its use keeps the allocator.
module _ (m : Mgr) (i : ℕ) (c : Conn) where
  put_frame :
      c.inuse ≡ (m.ctl i).inuse
      → c.uid ≡ (m.ctl i).uid
      → (j : ℕ)
      → (((put m i c).ctl j).inuse ≡ (m.ctl j).inuse) × (((put m i c).ctl j).uid ≡ (m.ctl j).uid)
  put_frame e u j = ground arith

  pub put-IsAllocator :
      c.inuse ≡ (m.ctl i).inuse → c.uid ≡ (m.ctl i).uid → IsAllocator m → IsAllocator (put m i c)
  put-IsAllocator e u v = record {
    free = v.free;
    listed = record {
      chain =
          chain_frame m.ctl (put m i c).ctl m.next_unused_slot m.freelist v.free (omega arith)
            (λ j _. put_frame e u j) v.listed.chain;
      complete = λ j h f. v.listed.complete j h (sym (put_frame e u j).0 ∙ f);
      untouched = λ j h. (put_frame e u j).0 ∙ v.listed.untouched j h;
      bound = v.listed.bound;
      uids = λ j. subst (λ t. t < 2 ^ 32) (sym (put_frame e u j).1) (v.listed.uids j);
    };
  }

  pub ctl-put_self : (put m i c).ctl i ≡ c
  ctl-put_self = rw (==_refl i)

  pub ctl-put_ne : (j : ℕ) → j ≢ i → (put m i c).ctl j ≡ m.ctl j
  ctl-put_ne j ne = rw (ne→==_false j i ne)

  -- The other slots keep their accounts, and slot `i` has those of `c`.
  pub put-IsSlot :
      ((j : ℕ) → j ≢ i → IsSlot j (m.ctl j)) → IsSlot i c → (j : ℕ) → IsSlot j ((put m i c).ctl j)
  put-IsSlot others own j = elim (ℕ_discrete j i) [
    | yes e ↦ subst (λ k. IsSlot k ((put m i c).ctl k)) (sym e) (rw (==_refl i) own)
    | no ne ↦ rw (ne→==_false j i ne) (others j ne)
  ]
