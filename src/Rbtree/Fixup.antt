-- ===== src/Rbtree/Fixup.antt =====
-- The loop of `rbt_insert_fixup` of src/rbtree.c leaves the repaired tree.
use kaplarc.Base.{
  ℕ, zero, suc, ◌<◌, ◌≡◌, refl, sym, subst, inl, inr, Bool-cases, [], ◌∷◌, ◌==◌, false, arith,
  length,
}
use kaplarc.Rbtree.Nodes.{Ptr, null, red, black, Rbtree, ok, set_color, is_red}
use kaplarc.Rbtree.Update.{fixup_round, fixup_loop, rbt_insert_fixup}
use kaplarc.Rbtree.Shape.{
  Tree, leaf, node, Frame, from_left, from_right, Context, top, address, fill, plug, hits_self,
  Holds, HoldsFrame, Represents,
}
use kaplarc.Rbtree.Find.{not_null, ==-self, ==-apart, load-ok}
use kaplarc.Rbtree.Walk.{top-ne, ascend}
use kaplarc.Rbtree.Focus.{Yields, bind, yield, paint}
use kaplarc.Rbtree.Repair.{
  red_top, blacken, shade, round, repair, IsRooted, IsNode, the_node, round-IsNode, repair-IsNode,
}
use kaplarc.Rbtree.Rounds.{
  recolor_left, recolor_right, rebalance_left_outer, rebalance_left_inner, rebalance_right_outer,
  rebalance_right_inner,
}

pub is_red_lem :
    (t : Rbtree) (p : Ptr) (s : Tree) → Holds t.nodes p s → is_red (top s) t ≡ ok (red_top s) t
unfolding is_red
is_red_lem t p leaf e = refl
is_red_lem t p (node l a c r) e = rw (not_null e.0, load-ok {t = t} e.0 e.1) refl

module _ (t : Rbtree) (k : Context) (least : Ptr) (m : t.cached_min ≡ least) (sl : Tree) (n sc : ℕ)
    (sr : Tree) where
  pub fixup_round_lem :
      (f g : Frame)
      → Represents t (f ∷ g ∷ k) (node sl n sc sr)
      → Yields
          (fixup_round n (address f) t)
          (top (round f g (node sl n sc sr)))
          least
          k
          (round f g (node sl n sc sr))
  unfolding fixup_round
  fixup_round_lem (from_left p pc pr) (from_left g gc leaf) rep =
      rw
        (
          load-ok {t = t} rep.above.0.0 rep.above.0.1,
          load-ok {t = t} rep.above.1.0.0 rep.above.1.0.1,
          ==-self p,
          is_red_lem t g leaf rep.above.1.0.2,
        )
        (rebalance_left_outer t k least m sl n sc sr p pc pr g gc leaf (
          ascend t (from_left g gc leaf) k (node (node sl n sc sr) p pc pr)
            (ascend t (from_left p pc pr) ((from_left g gc leaf) ∷ k) (node sl n sc sr) rep)))
  fixup_round_lem (from_left p pc pr) (from_left g gc (node ul u uc ur)) rep =
      elim (Bool-cases (uc == red)) [
        | inl r ↦
            rw
              (
                load-ok {t = t} rep.above.0.0 rep.above.0.1,
                load-ok {t = t} rep.above.1.0.0 rep.above.1.0.1,
                ==-self p,
                is_red_lem t g (node ul u uc ur) rep.above.1.0.2,
                r,
              )
              (recolor_left t k least m (node sl n sc sr) p pc pr g gc ul u uc ur (
                ascend t (from_left g gc (node ul u uc ur)) k (node (node sl n sc sr) p pc pr) (
                  ascend t (from_left p pc pr) ((from_left g gc (node ul u uc ur)) ∷ k)
                    (node sl n sc sr) rep)))
        | inr b ↦
            rw
              (
                load-ok {t = t} rep.above.0.0 rep.above.0.1,
                load-ok {t = t} rep.above.1.0.0 rep.above.1.0.1,
                ==-self p,
                is_red_lem t g (node ul u uc ur) rep.above.1.0.2,
                b,
              )
              (rebalance_left_outer t k least m sl n sc sr p pc pr g gc (node ul u uc ur) (
                ascend t (from_left g gc (node ul u uc ur)) k (node (node sl n sc sr) p pc pr) (
                  ascend t (from_left p pc pr) ((from_left g gc (node ul u uc ur)) ∷ k)
                    (node sl n sc sr) rep)))
      ]
  fixup_round_lem (from_right pr p pc) (from_left g gc leaf) rep =
      rw
        (
          load-ok {t = t} rep.above.0.0 rep.above.0.1,
          load-ok {t = t} rep.above.1.0.0 rep.above.1.0.1,
          ==-self p,
          is_red_lem t g leaf rep.above.1.0.2,
        )
        (rebalance_left_inner t k least m sl n sc sr p pc pr g gc leaf (
          ascend t (from_left g gc leaf) k (node pr p pc (node sl n sc sr))
            (ascend t (from_right pr p pc) ((from_left g gc leaf) ∷ k) (node sl n sc sr) rep)))
  fixup_round_lem (from_right pr p pc) (from_left g gc (node ul u uc ur)) rep =
      elim (Bool-cases (uc == red)) [
        | inl r ↦
            rw
              (
                load-ok {t = t} rep.above.0.0 rep.above.0.1,
                load-ok {t = t} rep.above.1.0.0 rep.above.1.0.1,
                ==-self p,
                is_red_lem t g (node ul u uc ur) rep.above.1.0.2,
                r,
              )
              (recolor_left t k least m pr p pc (node sl n sc sr) g gc ul u uc ur (
                ascend t (from_left g gc (node ul u uc ur)) k (node pr p pc (node sl n sc sr)) (
                  ascend t (from_right pr p pc) ((from_left g gc (node ul u uc ur)) ∷ k)
                    (node sl n sc sr) rep)))
        | inr b ↦
            rw
              (
                load-ok {t = t} rep.above.0.0 rep.above.0.1,
                load-ok {t = t} rep.above.1.0.0 rep.above.1.0.1,
                ==-self p,
                is_red_lem t g (node ul u uc ur) rep.above.1.0.2,
                b,
              )
              (rebalance_left_inner t k least m sl n sc sr p pc pr g gc (node ul u uc ur) (
                ascend t (from_left g gc (node ul u uc ur)) k (node pr p pc (node sl n sc sr)) (
                  ascend t (from_right pr p pc) ((from_left g gc (node ul u uc ur)) ∷ k)
                    (node sl n sc sr) rep)))
      ]
  fixup_round_lem (from_right pr p pc) (from_right leaf g gc) rep =
      rw
        (
          load-ok {t = t} rep.above.0.0 rep.above.0.1,
          load-ok {t = t} rep.above.1.0.0 rep.above.1.0.1,
          ==-apart (top leaf) p
              (top-ne leaf p rep.above.0.0 (omega (arith, rep.once p, hits_self p))),
          is_red_lem t g leaf rep.above.1.0.2,
        )
        (rebalance_right_outer t k least m sl n sc sr p pc pr g gc leaf (
          ascend t (from_right leaf g gc) k (node pr p pc (node sl n sc sr))
            (ascend t (from_right pr p pc) ((from_right leaf g gc) ∷ k) (node sl n sc sr) rep)))
  fixup_round_lem (from_right pr p pc) (from_right (node ul u uc ur) g gc) rep =
      elim (Bool-cases (uc == red)) [
        | inl r ↦
            rw
              (
                load-ok {t = t} rep.above.0.0 rep.above.0.1,
                load-ok {t = t} rep.above.1.0.0 rep.above.1.0.1,
                ==-apart (top (node ul u uc ur)) p (
                    top-ne (node ul u uc ur) p rep.above.0.0
                      (omega (arith, rep.once p, hits_self p))),
                is_red_lem t g (node ul u uc ur) rep.above.1.0.2,
                r,
              )
              (recolor_right t k least m pr p pc (node sl n sc sr) g gc ul u uc ur (
                ascend t (from_right (node ul u uc ur) g gc) k (node pr p pc (node sl n sc sr)) (
                  ascend t (from_right pr p pc) ((from_right (node ul u uc ur) g gc) ∷ k)
                    (node sl n sc sr) rep)))
        | inr b ↦
            rw
              (
                load-ok {t = t} rep.above.0.0 rep.above.0.1,
                load-ok {t = t} rep.above.1.0.0 rep.above.1.0.1,
                ==-apart (top (node ul u uc ur)) p (
                    top-ne (node ul u uc ur) p rep.above.0.0
                      (omega (arith, rep.once p, hits_self p))),
                is_red_lem t g (node ul u uc ur) rep.above.1.0.2,
                b,
              )
              (rebalance_right_outer t k least m sl n sc sr p pc pr g gc (node ul u uc ur) (
                ascend t (from_right (node ul u uc ur) g gc) k (node pr p pc (node sl n sc sr)) (
                  ascend t (from_right pr p pc) ((from_right (node ul u uc ur) g gc) ∷ k)
                    (node sl n sc sr) rep)))
      ]
  fixup_round_lem (from_left p pc pr) (from_right leaf g gc) rep =
      rw
        (
          load-ok {t = t} rep.above.0.0 rep.above.0.1,
          load-ok {t = t} rep.above.1.0.0 rep.above.1.0.1,
          ==-apart (top leaf) p
              (top-ne leaf p rep.above.0.0 (omega (arith, rep.once p, hits_self p))),
          is_red_lem t g leaf rep.above.1.0.2,
        )
        (rebalance_right_inner t k least m sl n sc sr p pc pr g gc leaf (
          ascend t (from_right leaf g gc) k (node (node sl n sc sr) p pc pr)
            (ascend t (from_left p pc pr) ((from_right leaf g gc) ∷ k) (node sl n sc sr) rep)))
  fixup_round_lem (from_left p pc pr) (from_right (node ul u uc ur) g gc) rep =
      elim (Bool-cases (uc == red)) [
        | inl r ↦
            rw
              (
                load-ok {t = t} rep.above.0.0 rep.above.0.1,
                load-ok {t = t} rep.above.1.0.0 rep.above.1.0.1,
                ==-apart (top (node ul u uc ur)) p (
                    top-ne (node ul u uc ur) p rep.above.0.0
                      (omega (arith, rep.once p, hits_self p))),
                is_red_lem t g (node ul u uc ur) rep.above.1.0.2,
                r,
              )
              (recolor_right t k least m (node sl n sc sr) p pc pr g gc ul u uc ur (
                ascend t (from_right (node ul u uc ur) g gc) k (node (node sl n sc sr) p pc pr) (
                  ascend t (from_left p pc pr) ((from_right (node ul u uc ur) g gc) ∷ k)
                    (node sl n sc sr) rep)))
        | inr b ↦
            rw
              (
                load-ok {t = t} rep.above.0.0 rep.above.0.1,
                load-ok {t = t} rep.above.1.0.0 rep.above.1.0.1,
                ==-apart (top (node ul u uc ur)) p (
                    top-ne (node ul u uc ur) p rep.above.0.0
                      (omega (arith, rep.once p, hits_self p))),
                is_red_lem t g (node ul u uc ur) rep.above.1.0.2,
                b,
              )
              (rebalance_right_inner t k least m sl n sc sr p pc pr g gc (node ul u uc ur) (
                ascend t (from_right (node ul u uc ur) g gc) k (node (node sl n sc sr) p pc pr) (
                  ascend t (from_left p pc pr) ((from_right (node ul u uc ur) g gc) ∷ k)
                    (node sl n sc sr) rep)))
      ]

pub to_root : (t : Rbtree) (k : Context) (s : Tree) → Represents t k s → Represents t [] (plug k s)
to_root t [] s rep = rep
to_root t (f ∷ k) s rep = to_root t k (fill f s) (ascend t f k s rep)

is_red_frame :
    (t : Rbtree) (f : Frame) (p x : Ptr)
    → HoldsFrame t.nodes p x f
    → is_red (address f) t ≡ ok (shade f == red) t
unfolding is_red
is_red_frame t (from_left a c r) p x e = rw (not_null e.0, load-ok {t = t} e.0 e.1) refl
is_red_frame t (from_right l a c) p x e = rw (not_null e.0, load-ok {t = t} e.0 e.1) refl

IsRooted-tail : (f : Frame) (k : Context) → IsRooted (f ∷ k) → IsRooted k
IsRooted-tail f [] h = tt
IsRooted-tail f (g ∷ k) h = h

-- With as much fuel as there are ancestors, the loop ends with the repaired tree.
fixup_loop_lem :
    (k : Context) (fuel : ℕ) (t : Rbtree) (least : Ptr) (s : Tree)
    → IsNode s
    → IsRooted k
    → length k < fuel
    → Represents t k s
    → t.cached_min ≡ least
    → Yields (fixup_loop fuel (top s) t) tt least [] (repair k s)
unfolding fixup_loop repair
fixup_loop_lem k fuel t least leaf is rooted enough rep m = absurd (ground (arith, is.is))
fixup_loop_lem k zero t least (node l n c r) is rooted enough rep m = absurd (omega arith)
fixup_loop_lem [] (suc fuel) t least (node l n c r) is rooted enough rep m =
    rw (load-ok {t = t} rep.below.0 rep.below.1, is_red_lem t null leaf tt) (yield t rep m)
fixup_loop_lem (f ∷ []) (suc fuel) t least (node l n c r) is rooted enough rep m =
    let not_red : (shade f == red) ≡ false = ground (arith, rooted) in
    rw (load-ok {t = t} rep.below.0 rep.below.1, is_red_frame t f null n rep.above.0, not_red)
      (yield t (to_root t (f ∷ []) (node l n c r) rep) m)
fixup_loop_lem (f ∷ g ∷ k) (suc fuel) t least (node l n c r) is rooted enough rep m =
    elim (Bool-cases (shade f == red)) [
      | inl h ↦
          rw
            (load-ok {t = t} rep.below.0 rep.below.1, is_red_frame t f (address g) n rep.above.0, h)
            (bind _ (fixup_round_lem t k least m l n c r f g rep) λ t1 rep1 m1.
              fixup_loop_lem k fuel t1 least (round f g (node l n c r)) (round-IsNode f g l n c r)
                (IsRooted-tail g k rooted) (omega arith) rep1 m1)
      | inr h ↦
          rw
            (load-ok {t = t} rep.below.0 rep.below.1, is_red_frame t f (address g) n rep.above.0, h)
            (yield t (to_root t (f ∷ g ∷ k) (node l n c r) rep) m)
    ]

blacken_root :
    (t : Rbtree) (least : Ptr) (s : Tree)
    → IsNode s
    → Represents t [] s
    → t.cached_min ≡ least
    → Yields (set_color t.root black t) tt least [] (blacken s)
blacken_root t least leaf is rep m = absurd (ground (arith, is.is))
blacken_root t least (node l a c r) is rep m =
    subst (λ p. Yields (set_color p black t) tt least [] (node l a black r)) (sym rep.above)
      (paint t [] l a c r rep least m black)

-- `rbt_insert_fixup` repairs the tree, and makes its top black.
pub rbt_insert_fixup_lem :
    (k : Context) (fuel : ℕ) (t : Rbtree) (l : Tree) (n c : ℕ) (r : Tree)
    → IsRooted k
    → length k < fuel
    → Represents t k (node l n c r)
    → Yields (rbt_insert_fixup fuel n t) tt t.cached_min [] (blacken (repair k (node l n c r)))
unfolding rbt_insert_fixup
rbt_insert_fixup_lem k fuel t l n c r rooted enough rep =
    bind _
      (fixup_loop_lem k fuel t t.cached_min (node l n c r) (the_node l n c r) rooted enough rep
        refl)
      λ t1 rep1 m1. blacken_root t1 t.cached_min _ (repair-IsNode k _ (the_node l n c r)) rep1 m1
