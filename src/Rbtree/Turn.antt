-- ===== src/Rbtree/Turn.antt =====
-- The rotations of src/rbtree.c on a represented tree.
use kaplarc.Base.{ℕ, ◌+◌, ◌≤◌, ◌≡◌, ◌≢◌, ◌⊎◌, inl, inr, refl, ap, ◌∙◌, some, arith}
use kaplarc.Rbtree.Nodes.{Ptr, null, RbNode, Rbtree, ok}
use kaplarc.Rbtree.Update.{rbt_rotate_left, rbt_rotate_right}
use kaplarc.Rbtree.Shape.{
  Store, Tree, leaf, node, Context, top, up, occurs, occurs_above, hits, hits_self, Holds,
  HoldsAbove, Holds-frame, Holds-hang, Represents, occurs-top,
}
use kaplarc.Rbtree.Find.{load-ok}
use kaplarc.Rbtree.Walk.{top-ne}
use kaplarc.Rbtree.Replace.{HoldsAbove-frame, replace_child_lem}
use kaplarc.Rbtree.Rotate.{turn_left_lem, turn_right_lem}

top-held :
    (g h : Store) (s : Tree) (p : Ptr)
    → Holds h p s
    → (top s ≢ null → g (top s) ≡ h (top s))
    → (top s ≡ null) ⊎ ((z : RbNode) × (top s ≢ null) × (g (top s) ≡ some z))
top-held g h leaf p e same = inl refl
top-held g h (node l a c r) p e same = inr (_, e.0, same e.0 ∙ e.1)

module _ (t : Rbtree) (k : Context) (a c ca cc : ℕ) (b d e : Tree) where
  -- The rotation at `a` turns the subtree, keeps the links of all other nodes, and the order.
  pub rbt_rotate_left_lem :
      Represents t k (node b a ca (node d c cc e))
      → (g : Rbtree) × (rbt_rotate_left a t ≡ ok tt g)
        × Represents g k (node (node b a ca d) c cc e)
        × (g.cached_min ≡ t.cached_min)
  unfolding rbt_rotate_left
  rbt_rotate_left_lem rep =
      let here : (q : Ptr)
          → occurs q b + (hits q a + (occurs q d + (hits q c + (occurs q e + occurs_above q k))))
            ≤ 1 =
        λ q. omega (arith, rep.once q) in
      let a_k : occurs_above a k ≡ 0 = omega (arith, here a, hits_self a) in
      let c_k : occurs_above c k ≡ 0 = omega (arith, here c, hits_self c) in
      let a_c : a ≢ c = λ i. omega (arith, here a, hits_self a, ap (λ x. hits a x) i) in
      let d_a : top d ≢ a = top-ne d a rep.below.0 (omega (arith, here a, hits_self a)) in
      let d_c : top d ≢ c = top-ne d c rep.below.3.0 (omega (arith, here c, hits_self c)) in
      let (t1, run1, replaced) =
        replace_child_lem t a c ca _ _ rep.below.0 k rep.below.1 rep.above a_k
          (λ q. omega (arith, here q)) in
      let d_top = λ (f : top d ≢ null).
        replaced.others (top d) (omega (arith, here (top d), occurs-top d f)) in
      let d_t : (top d ≡ null) ⊎ ((z : RbNode) × (top d ≢ null) × (t1.nodes (top d) ≡ some z)) =
        top-held t1.nodes t.nodes d c rep.below.3.2 d_top in
      let (g, run2, turned) =
        turn_left_lem t1 a c (top d) rep.below.0 rep.below.3.0 a_c d_a d_c ca cc (up k) (top b)
          (top e) (replaced.others a a_k ∙ rep.below.1) (replaced.others c c_k ∙ rep.below.3.1)
          d_t in
      let kept : (q : Ptr)
          → q ≢ a
          → q ≢ c
          → (top d ≢ null → q ≢ top d)
          → occurs_above q k ≡ 0
          → g.nodes q ≡ t.nodes q =
        λ q i j m z. turned.others q i j m ∙ replaced.others q z in
      let off : (q : Ptr) → occurs q d ≡ 0 → top d ≢ null → q ≢ top d =
        λ q z f i. omega (arith, z, occurs-top d f, ap (λ x. occurs x d) i) in
      let off_a : (q : Ptr)
          → 1 ≤ occurs q b + (occurs q d + (occurs q e + occurs_above q k))
          → q ≢ a =
        λ q m i. omega (arith, m, here q, hits_self a, ap (λ x. hits x a) i) in
      let off_c : (q : Ptr)
          → 1 ≤ occurs q b + (occurs q d + (occurs q e + occurs_above q k))
          → q ≢ c =
        λ q m i. omega (arith, m, here q, hits_self c, ap (λ x. hits x c) i) in
      let b_held : Holds g.nodes a b = Holds-frame b a rep.below.2 (λ q m.
        kept q (off_a q (omega arith)) (off_c q (omega arith)) (off q (omega (arith, here q)))
          (omega (arith, here q))) in
      let e_held : Holds g.nodes c e = Holds-frame e c rep.below.3.3 (λ q m.
        kept q (off_a q (omega arith)) (off_c q (omega arith)) (off q (omega (arith, here q)))
          (omega (arith, here q))) in
      let d_held : Holds g.nodes a d =
        Holds-hang d c a rep.below.3.2 (omega (arith, here (top d)))
          (λ q m i.
            kept q (off_a q (omega arith)) (off_c q (omega arith)) (λ _. i) (omega (arith, here q)))
          (λ x f hx. turned.handed x f (d_top f ∙ hx)) in
      let k_held : HoldsAbove g c k =
        HoldsAbove-frame t1 g k c turned.same_root replaced.above (λ q m.
          turned.others q (off_a q (omega arith)) (off_c q (omega arith))
            (off q (omega (arith, here q)))) in
      (
        g,
        rw (load-ok {t = t} rep.below.0 rep.below.1, run1, run2) refl,
        record {
          below = (rep.below.3.0, turned.high, (rep.below.0, turned.low, b_held, d_held), e_held);
          above = k_held;
          once = λ q. omega (arith, here q);
        },
        turned.same_min ∙ replaced.same_min,
      )

  -- The rotation at `a` turns the subtree, keeps the links of all other nodes, and the order.
  pub rbt_rotate_right_lem :
      Represents t k (node (node e c cc d) a ca b)
      → (g : Rbtree) × (rbt_rotate_right a t ≡ ok tt g)
        × Represents g k (node e c cc (node d a ca b))
        × (g.cached_min ≡ t.cached_min)
  unfolding rbt_rotate_right
  rbt_rotate_right_lem rep =
      let here : (q : Ptr)
          → occurs q b + (hits q a + (occurs q d + (hits q c + (occurs q e + occurs_above q k))))
            ≤ 1 =
        λ q. omega (arith, rep.once q) in
      let a_k : occurs_above a k ≡ 0 = omega (arith, here a, hits_self a) in
      let c_k : occurs_above c k ≡ 0 = omega (arith, here c, hits_self c) in
      let a_c : a ≢ c = λ i. omega (arith, here a, hits_self a, ap (λ x. hits a x) i) in
      let d_a : top d ≢ a = top-ne d a rep.below.0 (omega (arith, here a, hits_self a)) in
      let d_c : top d ≢ c = top-ne d c rep.below.2.0 (omega (arith, here c, hits_self c)) in
      let (t1, run1, replaced) =
        replace_child_lem t a c ca _ _ rep.below.0 k rep.below.1 rep.above a_k
          (λ q. omega (arith, here q)) in
      let d_top = λ (f : top d ≢ null).
        replaced.others (top d) (omega (arith, here (top d), occurs-top d f)) in
      let d_t : (top d ≡ null) ⊎ ((z : RbNode) × (top d ≢ null) × (t1.nodes (top d) ≡ some z)) =
        top-held t1.nodes t.nodes d c rep.below.2.3 d_top in
      let (g, run2, turned) =
        turn_right_lem t1 a c (top d) rep.below.0 rep.below.2.0 a_c d_a d_c ca cc (up k) (top b)
          (top e) (replaced.others a a_k ∙ rep.below.1) (replaced.others c c_k ∙ rep.below.2.1)
          d_t in
      let kept : (q : Ptr)
          → q ≢ a
          → q ≢ c
          → (top d ≢ null → q ≢ top d)
          → occurs_above q k ≡ 0
          → g.nodes q ≡ t.nodes q =
        λ q i j m z. turned.others q i j m ∙ replaced.others q z in
      let off : (q : Ptr) → occurs q d ≡ 0 → top d ≢ null → q ≢ top d =
        λ q z f i. omega (arith, z, occurs-top d f, ap (λ x. occurs x d) i) in
      let off_a : (q : Ptr)
          → 1 ≤ occurs q b + (occurs q d + (occurs q e + occurs_above q k))
          → q ≢ a =
        λ q m i. omega (arith, m, here q, hits_self a, ap (λ x. hits x a) i) in
      let off_c : (q : Ptr)
          → 1 ≤ occurs q b + (occurs q d + (occurs q e + occurs_above q k))
          → q ≢ c =
        λ q m i. omega (arith, m, here q, hits_self c, ap (λ x. hits x c) i) in
      let b_held : Holds g.nodes a b = Holds-frame b a rep.below.3 (λ q m.
        kept q (off_a q (omega arith)) (off_c q (omega arith)) (off q (omega (arith, here q)))
          (omega (arith, here q))) in
      let e_held : Holds g.nodes c e = Holds-frame e c rep.below.2.2 (λ q m.
        kept q (off_a q (omega arith)) (off_c q (omega arith)) (off q (omega (arith, here q)))
          (omega (arith, here q))) in
      let d_held : Holds g.nodes a d =
        Holds-hang d c a rep.below.2.3 (omega (arith, here (top d)))
          (λ q m i.
            kept q (off_a q (omega arith)) (off_c q (omega arith)) (λ _. i) (omega (arith, here q)))
          (λ x f hx. turned.handed x f (d_top f ∙ hx)) in
      let k_held : HoldsAbove g c k =
        HoldsAbove-frame t1 g k c turned.same_root replaced.above (λ q m.
          turned.others q (off_a q (omega arith)) (off_c q (omega arith))
            (off q (omega (arith, here q)))) in
      (
        g,
        rw (load-ok {t = t} rep.below.0 rep.below.1, run1, run2) refl,
        record {
          below = (rep.below.2.0, turned.high, e_held, (rep.below.0, turned.low, d_held, b_held));
          above = k_held;
          once = λ q. omega (arith, here q);
        },
        turned.same_min ∙ replaced.same_min,
      )
