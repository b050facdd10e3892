-- ===== src/Rbtree/Replace.antt =====
-- `replace_child` of the model: the link of src/rbtree.c that points down to a node is moved.
use kaplarc.Base.{ℕ, ◌+◌, ◌≤◌, ◌≡◌, ◌≢◌, refl, ap, ◌∙◌, some, [], ◌∷◌, arith}
use kaplarc.Rbtree.Nodes.{Ptr, null, rb_node, Rbtree, ok, put}
use kaplarc.Rbtree.Update.{replace_child}
use kaplarc.Rbtree.Shape.{
  Store, Frame, from_left, from_right, Context, top, address, up, occurs, occurs_above,
  occurs_frame, hits, hits_self, HoldsFrame, HoldsAbove, Holds-frame,
}
use kaplarc.Rbtree.Find.{not_null, ==-self, ==-apart, load-ok}
use kaplarc.Rbtree.Walk.{top-ne}
use kaplarc.Rbtree.Writes.{put_self, put-other, set_left-ok, set_right-ok}

-- An address that occurs already is not met again.
pub clash : (f : Ptr → ℕ) (q p : Ptr) (n : ℕ) → hits p p + f p + n ≤ 1 → 1 ≤ f q → q ≢ p
clash f q p n once m = λ i. omega (arith, hits_self p, ap f i)

HoldsFrame-frame :
    {h g : Store} (f : Frame) (p x : Ptr)
    → HoldsFrame h p x f
    → ((q : Ptr) → 1 ≤ occurs_frame q f → g q ≡ h q)
    → HoldsFrame g p x f
HoldsFrame-frame (from_left a c r) p x e same = (
  e.0,
  same a (omega (arith, hits_self a)) ∙ e.1,
  Holds-frame r a e.2 (λ q m. same q (omega arith)),
)
HoldsFrame-frame (from_right l a c) p x e same = (
  e.0,
  same a (omega (arith, hits_self a)) ∙ e.1,
  Holds-frame l a e.2 (λ q m. same q (omega arith)),
)

-- The ancestors do not notice writes elsewhere.
pub HoldsAbove-frame :
    (t g : Rbtree) (k : Context) (x : Ptr)
    → g.root ≡ t.root
    → HoldsAbove t x k
    → ((q : Ptr) → 1 ≤ occurs_above q k → g.nodes q ≡ t.nodes q)
    → HoldsAbove g x k
HoldsAbove-frame t g [] x r e same = r ∙ e
HoldsAbove-frame t g (f ∷ k) x r e same = (
  HoldsFrame-frame f (up k) x e.0 (λ q m. same q (omega arith)),
  HoldsAbove-frame t g k (address f) r e.1 (λ q m. same q (omega arith)),
)

-- The store after the link above `k` points to `y`.
pub record Replaced (t g : Rbtree) (k : Context) (y : Ptr) : Type 0 where
  pub above : HoldsAbove g y k
  pub others : (q : Ptr) → occurs_above q k ≡ 0 → g.nodes q ≡ t.nodes q
  pub same_min : g.cached_min ≡ t.cached_min

module _ (t : Rbtree) (a y : Ptr) (c l r : ℕ) (a_some : a ≢ null) where
  pub replace_child_lem :
      (k : Context)
      → t.nodes a ≡ some (rb_node c (up k) l r)
      → HoldsAbove t a k
      → occurs_above a k ≡ 0
      → ((q : Ptr) → occurs_above q k ≤ 1)
      → (g : Rbtree) × (replace_child a y t ≡ ok tt g) × Replaced t g k y
  unfolding replace_child
  replace_child_lem [] held e out once = (
    record t { root = y },
    rw (load-ok {t = t} a_some held) refl,
    record { above = refl; others = λ q i. refl; same_min = refl },
  )
  replace_child_lem (from_left p d s ∷ k) held e out once =
      let h = put t.nodes p (rb_node d (up k) y (top s)) in
      let g : Rbtree = record t { nodes = h } in
      let other : (q : Ptr) → q ≢ p → h q ≡ t.nodes q = put-other t.nodes p _ in
      let in_s : (q : Ptr) → 1 ≤ occurs q s → q ≢ p =
        λ q. clash (λ x. occurs x s) q p (occurs_above p k) (omega (arith, once p)) in
      let in_k : (q : Ptr) → 1 ≤ occurs_above q k → q ≢ p =
        λ q. clash (λ x. occurs_above x k) q p (occurs p s) (omega (arith, once p)) in
      (
        g,
        rw
            (
              load-ok {t = t} a_some held,
              not_null e.0.0,
              load-ok {t = t} e.0.0 e.0.1,
              ==-self a,
              set_left-ok t e.0.0 e.0.1 y,
            )
            refl,
        record {
          above = (
            (e.0.0, put_self t.nodes p _, Holds-frame s p e.0.2 (λ q m. other q (in_s q m))),
            HoldsAbove-frame t g k p refl e.1 (λ q m. other q (in_k q m)),
          );
          others = λ q z. other q (λ i. omega (arith, z, hits_self p, ap (λ x. hits x p) i));
          same_min = refl;
        },
      )
  replace_child_lem (from_right s p d ∷ k) held e out once =
      let h = put t.nodes p (rb_node d (up k) (top s) y) in
      let g : Rbtree = record t { nodes = h } in
      let other : (q : Ptr) → q ≢ p → h q ≡ t.nodes q = put-other t.nodes p _ in
      let in_s : (q : Ptr) → 1 ≤ occurs q s → q ≢ p =
        λ q. clash (λ x. occurs x s) q p (occurs_above p k) (omega (arith, once p)) in
      let in_k : (q : Ptr) → 1 ≤ occurs_above q k → q ≢ p =
        λ q. clash (λ x. occurs_above x k) q p (occurs p s) (omega (arith, once p)) in
      (
        g,
        rw
            (
              load-ok {t = t} a_some held,
              not_null e.0.0,
              load-ok {t = t} e.0.0 e.0.1,
              ==-apart (top s) a (top-ne s a a_some (omega (arith, out))),
              set_right-ok t e.0.0 e.0.1 y,
            )
            refl,
        record {
          above = (
            (e.0.0, put_self t.nodes p _, Holds-frame s p e.0.2 (λ q m. other q (in_s q m))),
            HoldsAbove-frame t g k p refl e.1 (λ q m. other q (in_k q m)),
          );
          others = λ q z. other q (λ i. omega (arith, z, hits_self p, ap (λ x. hits x p) i));
          same_min = refl;
        },
      )
