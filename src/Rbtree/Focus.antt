-- ===== src/Rbtree/Focus.antt =====
-- Steps of the code of src/rbtree.c on a represented tree, seen from a subtree.
use kaplarc.Base.{ℕ, ◌+◌, ◌≤◌, ◌≡◌, ◌≢◌, refl, ap, ◌∙◌, arith}
use kaplarc.Rbtree.Nodes.{Ptr, rb_node, Rbtree, Outcome, ok, Cmd, and_then, put, set_color}
use kaplarc.Rbtree.Update.{rbt_rotate_left, rbt_rotate_right}
use kaplarc.Rbtree.Shape.{
  Tree, node, Context, top, up, occurs, occurs_above, hits, hits_self, Holds-frame, Represents,
}
use kaplarc.Rbtree.Writes.{put_self, put-other, set_color-ok}
use kaplarc.Rbtree.Replace.{HoldsAbove-frame}
use kaplarc.Rbtree.Turn.{rbt_rotate_left_lem, rbt_rotate_right_lem}

-- A run ends with `a`, the tree `s` in the context `k`, and the cached minimum `least`.
pub record Yields {A : Type 0} (r : Outcome A) (a : A) (least : Ptr) (k : Context) (s : Tree)
    : Type 0 where
  pub after : Rbtree
  pub run : r ≡ ok a after
  pub rep : Represents after k s
  pub same_min : after.cached_min ≡ least

pub bind :
    {A B : Type 0} {r : Outcome A} {a : A} {b : B} {least least' : Ptr} {k k' : Context}
    {s s' : Tree} (f : A → Cmd B)
    → Yields r a least k s
    → ((g : Rbtree) → Represents g k s → g.cached_min ≡ least → Yields (f a g) b least' k' s')
    → Yields (and_then r f) b least' k' s'
bind f y next =
    let rest = next y.after y.rep y.same_min in
    record {
      after = rest.after;
      run = rw (y.run) (rest.run);
      rep = rest.rep;
      same_min = rest.same_min;
    }

pub yield :
    {A : Type 0} {a : A} {least : Ptr} {k : Context} {s : Tree} (t : Rbtree)
    → Represents t k s
    → t.cached_min ≡ least
    → Yields (ok a t) a least k s
yield t rep m = record { after = t; run = refl; rep = rep; same_min = m }

-- The result seen from elsewhere.
pub refocus :
    {A : Type 0} {r : Outcome A} {a : A} {least : Ptr} {k k' : Context} {s s' : Tree}
    → Yields r a least k s
    → ((g : Rbtree) → Represents g k s → Represents g k' s')
    → Yields r a least k' s'
refocus y move = record {
  after = y.after;
  run = y.run;
  rep = move y.after y.rep;
  same_min = y.same_min;
}

module _ (t : Rbtree) (k : Context) (l : Tree) (a c : ℕ) (r : Tree)
    (rep : Represents t k (node l a c r)) (least : Ptr) (m : t.cached_min ≡ least) where
  pub paint : (c' : ℕ) → Yields (set_color a c' t) tt least k (node l a c' r)
  paint c' =
      let h = put t.nodes a (rb_node c' (up k) (top l) (top r)) in
      let other : (q : Ptr) → q ≢ a → h q ≡ t.nodes q = put-other t.nodes a _ in
      let off : (q : Ptr) → 1 ≤ occurs q l + occurs q r + occurs_above q k → q ≢ a =
        λ q n i. omega (arith, n, rep.once q, hits_self a, ap (λ x. hits x a) i) in
      record {
        after = record t { nodes = h };
        run = set_color-ok t rep.below.0 rep.below.1 c';
        rep = record {
          below = (
            rep.below.0,
            put_self t.nodes a _,
            Holds-frame l a rep.below.2 (λ q n. other q (off q (omega arith))),
            Holds-frame r a rep.below.3 (λ q n. other q (off q (omega arith))),
          );
          above =
              HoldsAbove-frame t (record t { nodes = h }) k a refl rep.above
                (λ q n. other q (off q (omega arith)));
          once = rep.once;
        };
        same_min = m;
      }

module _ (t : Rbtree) (k : Context) (a c ca cc : ℕ) (b d e : Tree) (least : Ptr)
    (m : t.cached_min ≡ least) where
  pub lift_right_child :
      Represents t k (node b a ca (node d c cc e))
      → Yields (rbt_rotate_left a t) tt least k (node (node b a ca d) c cc e)
  lift_right_child rep =
      let (g, run, rep', m') = rbt_rotate_left_lem t k a c ca cc b d e rep in
      record { after = g; run = run; rep = rep'; same_min = m' ∙ m }

  pub lift_left_child :
      Represents t k (node (node e c cc d) a ca b)
      → Yields (rbt_rotate_right a t) tt least k (node e c cc (node d a ca b))
  lift_left_child rep =
      let (g, run, rep', m') = rbt_rotate_right_lem t k a c ca cc b d e rep in
      record { after = g; run = run; rep = rep'; same_min = m' ∙ m }
