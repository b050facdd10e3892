-- ===== src/Rbtree/Insertion.antt =====
-- `rbt_insert` of src/rbtree.c on a tree that is ordered.
use Prim.Native.Nat.{Ordering}
use mathlib.Core.List.{append-nil}
use kaplarc.Base.{
  ℕ, ◌<◌, ◌≤◌, ◌≡◌, ◌≢◌, refl, ap, sym, subst, ◌∙◌, inl, inr, Option, none, some, List, [], ◌∷◌,
  ◌++◌, Bool, true, false, arith,
}
use kaplarc.Rbtree.Nodes.{Ptr, null, red, RbNode, Rbtree, Outcome, Compare}
use kaplarc.Rbtree.Update.{rbt_insert}
use kaplarc.Rbtree.Shape.{
  Store, Tree, leaf, node, from_left, from_right, Context, inorder, before, after, size, occurs,
  hits_self, Holds, Represents, inorder-plug,
}
use kaplarc.Rbtree.Find.{IsOrder, sign-cases}
use kaplarc.Rbtree.Walk.{first}
use kaplarc.Rbtree.Repair.{blacken, repair, the_node, inorder-blacken, inorder-repair}
use kaplarc.Rbtree.Descent.{place_for}
use kaplarc.Rbtree.Sorted.{Each, Each-append, IsSorted, place_for-Fits, IsSorted-between}
use kaplarc.Rbtree.Insert.{IsBlackTop, least_of, Inserted, insert_links}

-- An ordered tree in the store, with a black top and the least node in `cached_min`.
pub record IsTree (compare : Compare) (t : Rbtree) (w : Tree) : Type 0 where
  pub linked : Represents t [] w
  pub black_top : IsBlackTop w
  pub sorted : IsSorted compare (inorder w)
  pub cached : t.cached_min ≡ first (inorder w)

-- How an insertion of `n` ends: at a node equal to `n`, with the tree as it was, or with `n` in its
-- place and all else in the order that it had.
pub data Insertion (compare : Compare) (n : Ptr) (w : Tree) (r : Outcome Bool) : Type 0 where
  equal :
      (t : Rbtree) (e : Ptr)
      → r ≡ Outcome.ok false t
      → IsTree compare t w
      → 1 ≤ occurs e w
      → compare n e ≡ Ordering.eq
      → Insertion compare n w r
  fresh :
      (t : Rbtree) (w' : Tree) (xs ys : List Ptr)
      → r ≡ Outcome.ok true t
      → IsTree compare t w'
      → inorder w ≡ xs ++ ys
      → inorder w' ≡ xs ++ (n ∷ ys)
      → Insertion compare n w r

place_for-equal :
    (compare : Compare) (n : Ptr) (s : Tree) (k : Context)
    → place_for compare n s k ≡ none
    → (e : Ptr) × (1 ≤ occurs e s) × (compare n e ≡ Ordering.eq)
place_for-equal compare n leaf k h = absurd (ground (arith, h))
place_for-equal compare n (node l a c r) k h = elim (sign-cases (compare n a)) [
  | inl o ↦
      let (e, m, eq) = place_for-equal compare n l (from_left a c r ∷ k) (rw o at h) in
      (e, omega arith, eq)
  | inr (inl o) ↦ (a, omega (arith, hits_self a), o)
  | inr (inr o) ↦
      let (e, m, eq) = place_for-equal compare n r (from_right l a c ∷ k) (rw o at h) in
      (e, omega arith, eq)
]

Holds-some : (h : Store) (s : Tree) (p : Ptr) → Holds h p s → Each (λ q. q ≢ null) (inorder s)
Holds-some h leaf p e = tt
Holds-some h (node l a c r) p e =
    Each-append (λ q. q ≢ null) (inorder l) (a ∷ inorder r) (Holds-some h l a e.2)
      (e.0, Holds-some h r a e.3)

-- The cached minimum stays the first node.
least_of-first :
    (compare : Compare) (n : Ptr) (xs ys : List Ptr)
    → IsOrder compare
    → Each (λ q. q ≢ null) (xs ++ ys)
    → Each (λ q. compare q n ≡ Ordering.lt) xs
    → Each (λ q. compare n q ≡ Ordering.lt) ys
    → least_of compare n (first (xs ++ ys)) ≡ first (xs ++ (n ∷ ys))
least_of-first compare n [] [] order some_q less more = refl
least_of-first compare n [] (y ∷ ys) order some_q less more = ground (arith, some_q.0, more.0)
least_of-first compare n (x ∷ xs) ys order some_q less more =
    ground (arith, some_q.0, order.flip_lt x n less.0)

blacken-IsBlackTop : (s : Tree) → IsBlackTop (blacken s)
blacken-IsBlackTop leaf = tt
blacken-IsBlackTop (node l a c r) = refl

module _ (compare : Compare) (order : IsOrder compare) (n fuel : ℕ) (t : Rbtree) (w : Tree)
    (is : IsTree compare t w) where
  conclude :
      (o : Option Context) (r : Outcome Bool)
      → place_for compare n w [] ≡ o
      → Inserted compare r n t.cached_min w o
      → Insertion compare n w r
  conclude none r e y =
      let (q, m, eq) = place_for-equal compare n w [] e in
      let tree : IsTree compare y.after w = record {
        linked = y.rep;
        black_top = is.black_top;
        sorted = is.sorted;
        cached = y.same_min ∙ is.cached;
      } in
      equal y.after q y.run tree m eq
  conclude (some k) r e y =
      let f = place_for-Fits compare order n w [] k e is.sorted tt tt in
      let w' = repair k (node leaf n red leaf) in
      let all : inorder w ≡ before k ++ after k = sym (append-nil (inorder w)) ∙ sym f.same in
      let new : inorder (blacken w') ≡ before k ++ (n ∷ after k) =
        inorder-blacken w'
        ∙ inorder-repair k (node leaf n red leaf) (the_node leaf n red leaf)
        ∙ inorder-plug k (node leaf n red leaf) in
      let some_q : Each (λ q. q ≢ null) (before k ++ after k) =
        subst (Each (λ q. q ≢ null)) all (Holds-some t.nodes w null is.linked.below) in
      let tree : IsTree compare y.after (blacken w') = record {
        linked = y.rep;
        black_top = blacken-IsBlackTop w';
        sorted = subst (IsSorted compare) (sym new) (
            IsSorted-between compare order (before k) n (after k)
              (subst (IsSorted compare) all is.sorted) f.less f.more);
        cached =
            y.same_min
            ∙ ap (least_of compare n) (is.cached ∙ ap first all)
            ∙ least_of-first compare n (before k) (after k) order some_q f.less f.more
            ∙ ap first (sym new);
      } in
      fresh y.after (blacken w') (before k) (after k) y.run tree all new

  -- With an allocated node that is not in the tree, and more fuel than nodes, `rbt_insert` ends. It
  -- returns false and leaves the tree as it was where it meets an equal node, or returns true and
  -- leaves an ordered tree with a black top and the least node in `cached_min`, whose nodes are
  -- those of the old tree in their order, with the new node among them.
  pub rbt_insert_lem :
      (x : RbNode)
      → n ≢ null
      → t.nodes n ≡ some x
      → occurs n w ≡ 0
      → size w < fuel
      → Insertion compare n w (rbt_insert compare fuel n t)
  rbt_insert_lem x n_some held out enough =
      conclude (place_for compare n w []) _ refl
        (insert_links compare n fuel t w x n_some held out is.linked is.black_top enough)
