-- ===== src/Rbtree/Rounds.antt =====
-- The rounds of `rbt_insert_fixup` of src/rbtree.c on a represented tree.
use kaplarc.Base.{ℕ, ◌≡◌, ◌∷◌, arith}
use kaplarc.Rbtree.Nodes.{Ptr, red, black, Rbtree}
use kaplarc.Rbtree.Update.{recolor, rebalance_left, rebalance_right}
use kaplarc.Rbtree.Shape.{Tree, node, from_left, from_right, Context, top, hits_self, Represents}
use kaplarc.Rbtree.Find.{==-self, ==-apart, load-ok}
use kaplarc.Rbtree.Walk.{top-ne, ascend, descend_left, descend_right}
use kaplarc.Rbtree.Focus.{Yields, bind, yield, paint, lift_right_child, lift_left_child}

module _ (t : Rbtree) (k : Context) (least : Ptr) (m : t.cached_min ≡ least) where
  -- The parent is a left child, and the uncle is red.
  pub recolor_left :
      (pl : Tree) (p pc : ℕ) (pr : Tree) (g gc : ℕ) (ul : Tree) (u uc : ℕ) (ur : Tree)
      → Represents t k (node (node pl p pc pr) g gc (node ul u uc ur))
      → Yields (recolor p g u t) g least k (node (node pl p black pr) g red (node ul u black ur))
  unfolding recolor
  recolor_left pl p pc pr g gc ul u uc ur rep =
      bind _
        (paint t ((from_left g gc (node ul u uc ur)) ∷ k) pl p pc pr
          (descend_left t k (node pl p pc pr) g gc (node ul u uc ur) rep) least m black)
        λ t1 rep1 m1.
          bind _
            (paint t1 k (node pl p black pr) g gc (node ul u uc ur)
              (ascend t1 (from_left g gc (node ul u uc ur)) k (node pl p black pr) rep1) least m1
              red)
            λ t2 rep2 m2.
              bind _
                (paint t2 ((from_right (node pl p black pr) g red) ∷ k) ul u uc ur
                  (descend_right t2 k (node pl p black pr) g red (node ul u uc ur) rep2) least m2
                  black)
                λ t3 rep3 m3.
                  yield t3
                    (ascend t3 (from_right (node pl p black pr) g red) k (node ul u black ur) rep3)
                    m3

  -- The parent is a left child, and so is the node.
  pub rebalance_left_outer :
      (sl : Tree) (n sc : ℕ) (sr : Tree) (p pc : ℕ) (pr : Tree) (g gc : ℕ) (gr : Tree)
      → Represents t k (node (node (node sl n sc sr) p pc pr) g gc gr)
      → Yields
          (rebalance_left n p g t)
          p
          least
          k
          (node (node sl n sc sr) p black (node pr g red gr))
  unfolding rebalance_left
  rebalance_left_outer sl n sc sr p pc pr g gc gr rep =
      let at_p = descend_left t k (node (node sl n sc sr) p pc pr) g gc gr rep in
      let at_n = descend_left t ((from_left g gc gr) ∷ k) (node sl n sc sr) p pc pr at_p in
      rw
        (
          load-ok {t = t} at_p.below.0 at_p.below.1,
          ==-apart (top pr) n (top-ne pr n at_n.below.0 (omega (arith, rep.once n, hits_self n))),
        )
        (bind _ (lift_left_child t k g p gc pc gr pr (node sl n sc sr) least m rep) λ t1 rep1 m1.
          bind _ (paint t1 k (node sl n sc sr) p pc (node pr g gc gr) rep1 least m1 black)
            λ t2 rep2 m2.
              bind _
                (paint t2 ((from_right (node sl n sc sr) p black) ∷ k) pr g gc gr
                  (descend_right t2 k (node sl n sc sr) p black (node pr g gc gr) rep2) least m2
                  red)
                λ t3 rep3 m3.
                  yield t3
                    (ascend t3 (from_right (node sl n sc sr) p black) k (node pr g red gr) rep3) m3)

  -- The parent is a left child, and the node is a right child.
  pub rebalance_left_inner :
      (sl : Tree) (n sc : ℕ) (sr : Tree) (p pc : ℕ) (pl : Tree) (g gc : ℕ) (gr : Tree)
      → Represents t k (node (node pl p pc (node sl n sc sr)) g gc gr)
      → Yields
          (rebalance_left n p g t)
          n
          least
          k
          (node (node pl p pc sl) n black (node sr g red gr))
  unfolding rebalance_left
  rebalance_left_inner sl n sc sr p pc pl g gc gr rep =
      let at_p = descend_left t k (node pl p pc (node sl n sc sr)) g gc gr rep in
      rw (load-ok {t = t} at_p.below.0 at_p.below.1, ==-self n)
        (bind _ (lift_right_child t ((from_left g gc gr) ∷ k) p n pc sc pl sl sr least m at_p)
          λ t1 rep1 m1.
            bind _
              (lift_left_child t1 k g n gc sc gr sr (node pl p pc sl) least m1
                (ascend t1 (from_left g gc gr) k (node (node pl p pc sl) n sc sr) rep1))
              λ t2 rep2 m2.
                bind _ (paint t2 k (node pl p pc sl) n sc (node sr g gc gr) rep2 least m2 black)
                  λ t3 rep3 m3.
                    bind _
                      (paint t3 ((from_right (node pl p pc sl) n black) ∷ k) sr g gc gr
                        (descend_right t3 k (node pl p pc sl) n black (node sr g gc gr) rep3) least
                        m3 red)
                      λ t4 rep4 m4.
                        yield t4
                          (ascend t4 (from_right (node pl p pc sl) n black) k (node sr g red gr)
                            rep4)
                          m4)

  -- The parent is a right child, and the uncle is red.
  pub recolor_right :
      (pl : Tree) (p pc : ℕ) (pr : Tree) (g gc : ℕ) (ul : Tree) (u uc : ℕ) (ur : Tree)
      → Represents t k (node (node ul u uc ur) g gc (node pl p pc pr))
      → Yields (recolor p g u t) g least k (node (node ul u black ur) g red (node pl p black pr))
  unfolding recolor
  recolor_right pl p pc pr g gc ul u uc ur rep =
      bind _
        (paint t ((from_right (node ul u uc ur) g gc) ∷ k) pl p pc pr
          (descend_right t k (node ul u uc ur) g gc (node pl p pc pr) rep) least m black)
        λ t1 rep1 m1.
          bind _
            (paint t1 k (node ul u uc ur) g gc (node pl p black pr)
              (ascend t1 (from_right (node ul u uc ur) g gc) k (node pl p black pr) rep1) least m1
              red)
            λ t2 rep2 m2.
              bind _
                (paint t2 ((from_left g red (node pl p black pr)) ∷ k) ul u uc ur
                  (descend_left t2 k (node ul u uc ur) g red (node pl p black pr) rep2) least m2
                  black)
                λ t3 rep3 m3.
                  yield t3
                    (ascend t3 (from_left g red (node pl p black pr)) k (node ul u black ur) rep3)
                    m3

  -- The parent is a right child, and so is the node.
  pub rebalance_right_outer :
      (sl : Tree) (n sc : ℕ) (sr : Tree) (p pc : ℕ) (pr : Tree) (g gc : ℕ) (gr : Tree)
      → Represents t k (node gr g gc (node pr p pc (node sl n sc sr)))
      → Yields
          (rebalance_right n p g t)
          p
          least
          k
          (node (node gr g red pr) p black (node sl n sc sr))
  unfolding rebalance_right
  rebalance_right_outer sl n sc sr p pc pr g gc gr rep =
      let at_p = descend_right t k gr g gc (node pr p pc (node sl n sc sr)) rep in
      let at_n = descend_right t ((from_right gr g gc) ∷ k) pr p pc (node sl n sc sr) at_p in
      rw
        (
          load-ok {t = t} at_p.below.0 at_p.below.1,
          ==-apart (top pr) n (top-ne pr n at_n.below.0 (omega (arith, rep.once n, hits_self n))),
        )
        (bind _ (lift_right_child t k g p gc pc gr pr (node sl n sc sr) least m rep) λ t1 rep1 m1.
          bind _ (paint t1 k (node gr g gc pr) p pc (node sl n sc sr) rep1 least m1 black)
            λ t2 rep2 m2.
              bind _
                (paint t2 ((from_left p black (node sl n sc sr)) ∷ k) gr g gc pr
                  (descend_left t2 k (node gr g gc pr) p black (node sl n sc sr) rep2) least m2 red)
                λ t3 rep3 m3.
                  yield t3
                    (ascend t3 (from_left p black (node sl n sc sr)) k (node gr g red pr) rep3) m3)

  -- The parent is a right child, and the node is a left child.
  pub rebalance_right_inner :
      (sl : Tree) (n sc : ℕ) (sr : Tree) (p pc : ℕ) (pl : Tree) (g gc : ℕ) (gr : Tree)
      → Represents t k (node gr g gc (node (node sl n sc sr) p pc pl))
      → Yields
          (rebalance_right n p g t)
          n
          least
          k
          (node (node gr g red sl) n black (node sr p pc pl))
  unfolding rebalance_right
  rebalance_right_inner sl n sc sr p pc pl g gc gr rep =
      let at_p = descend_right t k gr g gc (node (node sl n sc sr) p pc pl) rep in
      rw (load-ok {t = t} at_p.below.0 at_p.below.1, ==-self n)
        (bind _ (lift_left_child t ((from_right gr g gc) ∷ k) p n pc sc pl sr sl least m at_p)
          λ t1 rep1 m1.
            bind _
              (lift_right_child t1 k g n gc sc gr sl (node sr p pc pl) least m1
                (ascend t1 (from_right gr g gc) k (node sl n sc (node sr p pc pl)) rep1))
              λ t2 rep2 m2.
                bind _ (paint t2 k (node gr g gc sl) n sc (node sr p pc pl) rep2 least m2 black)
                  λ t3 rep3 m3.
                    bind _
                      (paint t3 ((from_left n black (node sr p pc pl)) ∷ k) gr g gc sl
                        (descend_left t3 k (node gr g gc sl) n black (node sr p pc pl) rep3) least
                        m3 red)
                      λ t4 rep4 m4.
                        yield t4
                          (ascend t4 (from_left n black (node sr p pc pl)) k (node gr g red sl)
                            rep4)
                          m4)
