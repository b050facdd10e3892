-- ===== src/Rbtree/Walk.antt =====
-- The traversals of src/rbtree.c follow the order of the tree.
use mathlib.Core.List.{append-nil, append_assoc}
use kaplarc.Base.{ℕ, zero, suc, ◌+◌, ◌<◌, ◌≡◌, ◌≢◌, refl, sym, List, [], ◌∷◌, ◌++◌, arith, length}
use kaplarc.Rbtree.Nodes.{Ptr, null, Rbtree, ok}
use kaplarc.Rbtree.Search.{leftmost, rightmost, climb_next, climb_prev, rbnode_next, rbnode_prev}
use kaplarc.Rbtree.Shape.{
  Tree, leaf, node, Frame, from_left, from_right, Context, top, fill, inorder, before, after, size,
  occurs, Holds, Represents, hits_self,
}
use kaplarc.Rbtree.Find.{not_null, load-ok}

abbrev pub first : List Ptr → Ptr
first [] = null
first (q ∷ l) = q

abbrev pub last_after : Ptr → List Ptr → Ptr
last_after p [] = p
last_after p (q ∷ l) = last_after q l

abbrev pub last : List Ptr → Ptr
last l = last_after null l

last_after-append : (p a : Ptr) (xs ys : List Ptr) → last_after p (xs ++ (a ∷ ys)) ≡ last_after a ys
last_after-append p a [] ys = refl
last_after-append p a (x ∷ xs) ys = last_after-append x a xs ys

-- Another subtree has another top.
pub top-ne : (s : Tree) (a : Ptr) → a ≢ null → occurs a s ≡ 0 → top s ≢ a
top-ne leaf a e out = λ i. e (sym i)
top-ne (node l b c r) a e out = λ i. ground (arith, i)

module _ (t : Rbtree) where
  pub leftmost_lem :
      (k : ℕ) (l : Tree) (a c : ℕ) (r : Tree) (p : Ptr) (xs : List Ptr)
      → Holds t.nodes p (node l a c r)
      → size l < k
      → leftmost k a t ≡ ok (first (inorder (node l a c r) ++ xs)) t
  unfolding leftmost
  leftmost_lem zero l a c r p xs e enough = absurd (omega arith)
  leftmost_lem (suc k) leaf a c r p xs e enough = rw (load-ok {t = t} e.0 e.1) refl
  leftmost_lem (suc k) (node l a' c' r') a c r p xs e enough = ground (
    arith,
    load-ok {t = t} e.0 e.1,
    e.2.0,
    append_assoc (inorder (node l a' c' r')) (a ∷ inorder r) xs,
    leftmost_lem k l a' c' r' a (a ∷ (inorder r ++ xs)) e.2 (omega arith),
  )

  pub rightmost_lem :
      (k : ℕ) (r : Tree) (a c : ℕ) (l : Tree) (p : Ptr) (xs : List Ptr)
      → Holds t.nodes p (node l a c r)
      → size r < k
      → rightmost k a t ≡ ok (last (xs ++ inorder (node l a c r))) t
  unfolding rightmost
  rightmost_lem zero r a c l p xs e enough = absurd (omega arith)
  rightmost_lem (suc k) leaf a c l p xs e enough = ground (
    arith,
    load-ok {t = t} e.0 e.1,
    append_assoc xs (inorder l) (a ∷ []),
    last_after-append null a (xs ++ inorder l) [],
  )
  rightmost_lem (suc k) (node l' a' c' r) a c l p xs e enough = ground (
    arith,
    load-ok {t = t} e.0 e.1,
    e.3.0,
    append_assoc xs (inorder l) (a ∷ inorder (node l' a' c' r)),
    append_assoc (xs ++ inorder l) (a ∷ []) (inorder (node l' a' c' r)),
    rightmost_lem k r a' c' l' a ((xs ++ inorder l) ++ (a ∷ [])) e.3 (omega arith),
  )

  -- The same tree, seen from the parent.
  pub ascend :
      (f : Frame) (k : Context) (s : Tree) → Represents t (f ∷ k) s → Represents t k (fill f s)
  ascend (from_left a c r) k s rep = record {
    below = (rep.above.0.0, rep.above.0.1, rep.below, rep.above.0.2);
    above = rep.above.1;
    once = λ q. omega (arith, rep.once q);
  }
  ascend (from_right l a c) k s rep = record {
    below = (rep.above.0.0, rep.above.0.1, rep.above.0.2, rep.below);
    above = rep.above.1;
    once = λ q. omega (arith, rep.once q);
  }

  pub descend_left :
      (k : Context) (l : Tree) (a c : ℕ) (r : Tree)
      → Represents t k (node l a c r)
      → Represents t (from_left a c r ∷ k) l
  descend_left k l a c r rep = record {
    below = rep.below.2;
    above = ((rep.below.0, rep.below.1, rep.below.3), rep.above);
    once = λ q. omega (arith, rep.once q);
  }

  pub descend_right :
      (k : Context) (l : Tree) (a c : ℕ) (r : Tree)
      → Represents t k (node l a c r)
      → Represents t (from_right l a c ∷ k) r
  descend_right k l a c r rep = record {
    below = rep.below.3;
    above = ((rep.below.0, rep.below.1, rep.below.2), rep.above);
    once = λ q. omega (arith, rep.once q);
  }

  climb_next_lem :
      (k : Context) (fuel : ℕ) (l : Tree) (a c : ℕ) (r : Tree)
      → Represents t k (node l a c r)
      → length k < fuel
      → climb_next fuel a t ≡ ok (first (after k)) t
  unfolding climb_next
  climb_next_lem k zero l a c r rep enough = absurd (omega arith)
  climb_next_lem [] (suc n) l a c r rep enough = rw (load-ok {t = t} rep.below.0 rep.below.1) refl
  climb_next_lem (from_left b d s ∷ k) (suc n) l a c r rep enough = ground (
    arith,
    load-ok {t = t} rep.below.0 rep.below.1,
    load-ok {t = t} rep.above.0.0 rep.above.0.1,
    rep.above.0.0,
  )
  climb_next_lem (from_right s b d ∷ k) (suc n) l a c r rep enough = ground (
    arith,
    load-ok {t = t} rep.below.0 rep.below.1,
    load-ok {t = t} rep.above.0.0 rep.above.0.1,
    rep.above.0.0,
    top-ne s a rep.below.0 (omega (arith, rep.once a, hits_self a)),
    climb_next_lem k n s b d (node l a c r) (ascend (from_right s b d) k (node l a c r) rep)
        (omega arith),
  )

  climb_prev_lem :
      (k : Context) (fuel : ℕ) (l : Tree) (a c : ℕ) (r : Tree)
      → Represents t k (node l a c r)
      → length k < fuel
      → climb_prev fuel a t ≡ ok (last (before k)) t
  unfolding climb_prev
  climb_prev_lem k zero l a c r rep enough = absurd (omega arith)
  climb_prev_lem [] (suc n) l a c r rep enough = rw (load-ok {t = t} rep.below.0 rep.below.1) refl
  climb_prev_lem (from_right s b d ∷ k) (suc n) l a c r rep enough = ground (
    arith,
    load-ok {t = t} rep.below.0 rep.below.1,
    load-ok {t = t} rep.above.0.0 rep.above.0.1,
    rep.above.0.0,
    append_assoc (before k) (inorder s) (b ∷ []),
    last_after-append null b (before k ++ inorder s) [],
  )
  climb_prev_lem (from_left b d s ∷ k) (suc n) l a c r rep enough = ground (
    arith,
    load-ok {t = t} rep.below.0 rep.below.1,
    load-ok {t = t} rep.above.0.0 rep.above.0.1,
    rep.above.0.0,
    top-ne s a rep.below.0 (omega (arith, rep.once a, hits_self a)),
    climb_prev_lem k n (node l a c r) b d s (ascend (from_left b d s) k (node l a c r) rep)
        (omega arith),
  )

  pub next_at :
      (k : Context) (fuel : ℕ) (l : Tree) (a c : ℕ) (r : Tree)
      → Represents t k (node l a c r)
      → length k + size r < fuel
      → rbnode_next fuel a t ≡ ok (first (inorder r ++ after k)) t
  unfolding rbnode_next
  next_at k fuel l a c leaf rep enough = ground (
    arith,
    rep.below.0,
    load-ok {t = t} rep.below.0 rep.below.1,
    climb_next_lem k fuel l a c leaf rep (omega arith),
  )
  next_at k fuel l a c (node rl b d rr) rep enough = ground (
    arith,
    rep.below.0,
    load-ok {t = t} rep.below.0 rep.below.1,
    rep.below.3.0,
    leftmost_lem fuel rl b d rr a (after k) rep.below.3 (omega arith),
  )

  pub prev_at :
      (k : Context) (fuel : ℕ) (l : Tree) (a c : ℕ) (r : Tree)
      → Represents t k (node l a c r)
      → length k + size l < fuel
      → rbnode_prev fuel a t ≡ ok (last (before k ++ inorder l)) t
  unfolding rbnode_prev
  prev_at k fuel leaf a c r rep enough =
      rw (append-nil (before k), not_null rep.below.0, load-ok {t = t} rep.below.0 rep.below.1)
        (climb_prev_lem k fuel leaf a c r rep (omega arith))
  prev_at k fuel (node ll b d lr) a c r rep enough = ground (
    arith,
    rep.below.0,
    load-ok {t = t} rep.below.0 rep.below.1,
    rep.below.2.0,
    rightmost_lem fuel lr b d ll a (before k) rep.below.2 (omega arith),
  )
