-- ===== src/Rbtree/Descent.antt =====
-- The descent of `rbt_insert` of src/rbtree.c: it ends at the leaf where the comparisons lead, or
-- at an equal node.
use kaplarc.Base.{
  ℕ, zero, suc, ◌+◌, ◌<◌, ◌≤◌, ◌≡◌, ◌≢◌, refl, ap, ◌∙◌, inl, inr, ℕ_discrete, Option, none, some,
  [], ◌∷◌, Bool, true, false, arith,
}
use kaplarc.Rbtree.Nodes.{Ptr, null, red, rb_node, Rbtree, Outcome, ok, Compare, by_sign, put}
use kaplarc.Rbtree.Update.{Slot, at_root, left_of, right_of, read_slot, write_slot, insert_loop}
use kaplarc.Rbtree.Shape.{
  Tree, leaf, node, from_left, from_right, Context, top, up, plug, size, occurs, occurs_above, hits,
  hits_self, HoldsAbove, Holds-frame, Represents,
}
use kaplarc.Rbtree.Find.{not_null, load-ok, sign-cases}
use kaplarc.Rbtree.Walk.{descend_left, descend_right}
use kaplarc.Rbtree.Writes.{put_self, put-other, set_parent-ok, set_left-ok, set_right-ok}
use kaplarc.Rbtree.Replace.{HoldsAbove-frame, clash}
use kaplarc.Rbtree.Focus.{Yields, yield}
use kaplarc.Rbtree.Fixup.{to_root}

-- The link that leads to the subtree in the context.
abbrev pub slot : Context → Slot
slot [] = at_root
slot (from_left a c r ∷ k) = left_of a
slot (from_right l a c ∷ k) = right_of a

-- Where the comparisons lead from the subtree: the context of a leaf, or an equal node.
abbrev pub place_for : Compare → Ptr → Tree → Context → Option Context
place_for compare n leaf k = some k
place_for compare n (node l a c r) k =
    by_sign (compare n a) (place_for compare n l (from_left a c r ∷ k)) none
      (place_for compare n r (from_right l a c ∷ k))

-- A tree does not notice writes elsewhere.
pub Represents-frame :
    (t g : Rbtree) (k : Context) (s : Tree)
    → g.root ≡ t.root
    → Represents t k s
    → ((q : Ptr) → 1 ≤ occurs q s + occurs_above q k → g.nodes q ≡ t.nodes q)
    → Represents g k s
Represents-frame t g k s r rep same = record {
  below = Holds-frame s (up k) rep.below (λ q m. same q (omega arith));
  above = HoldsAbove-frame t g k (top s) r rep.above (λ q m. same q (omega arith));
  once = rep.once;
}

read_slot_lem :
    (t : Rbtree) (k : Context) (x : Ptr) → HoldsAbove t x k → read_slot (slot k) t ≡ ok x t
unfolding read_slot
read_slot_lem t [] x e = ap (λ p. ok p t) e
read_slot_lem t (from_left a c r ∷ k) x e = rw (load-ok {t = t} e.0.0 e.0.1) refl
read_slot_lem t (from_right l a c ∷ k) x e = rw (load-ok {t = t} e.0.0 e.0.1) refl

hits-other : (q n : Ptr) → q ≢ n → hits q n ≡ 0
hits-other q n e = ground arith

-- A fresh address may be added.
once_more :
    (f : Ptr → ℕ) (n : Ptr) → ((q : Ptr) → f q ≤ 1) → f n ≡ 0 → (q : Ptr) → hits q n + f q ≤ 1
once_more f n once fresh q = elim (ℕ_discrete q n) [
  | yes i ↦ omega (arith, ap f i, fresh, hits_self n, ap (λ x. hits x n) i)
  | no i ↦ omega (arith, once q, hits-other q n i)
]

pub once_leaf :
    (n : Ptr) (k : Context)
    → ((q : Ptr) → occurs q leaf + occurs_above q k ≤ 1)
    → occurs_above n k ≡ 0
    → (q : Ptr) → occurs q (node leaf n red leaf) + occurs_above q k ≤ 1
once_leaf n k once fresh q =
    omega (arith, once_more (λ x. occurs_above x k) n (λ x. omega (arith, once x)) fresh q)

module _ (t : Rbtree) (n : Ptr) (least : Ptr) (m : t.cached_min ≡ least) (n_some : n ≢ null) where
  -- `*y = n`
  write_slot_lem :
      (k : Context)
      → t.nodes n ≡ some (rb_node red (up k) null null)
      → occurs_above n k ≡ 0
      → Represents t k leaf
      → Yields (write_slot (slot k) n t) tt least k (node leaf n red leaf)
  unfolding write_slot
  write_slot_lem [] held fresh rep = record {
    after = record t { root = n };
    run = refl;
    rep = record {
      below = (n_some, held, tt, tt);
      above = refl;
      once = once_leaf n [] rep.once fresh;
    };
    same_min = m;
  }
  write_slot_lem (from_left p d s ∷ k) held fresh rep =
      let e = rep.above in
      let h = put t.nodes p (rb_node d (up k) n (top s)) in
      let g : Rbtree = record t { nodes = h } in
      let other : (q : Ptr) → q ≢ p → h q ≡ t.nodes q = put-other t.nodes p _ in
      let in_s : (q : Ptr) → 1 ≤ occurs q s → q ≢ p =
        λ q. clash (λ x. occurs x s) q p (occurs_above p k) (omega (arith, rep.once p)) in
      let in_k : (q : Ptr) → 1 ≤ occurs_above q k → q ≢ p =
        λ q. clash (λ x. occurs_above x k) q p (occurs p s) (omega (arith, rep.once p)) in
      record {
        after = g;
        run = set_left-ok t e.0.0 e.0.1 n;
        rep = record {
          below = (
            n_some,
            other n (λ i. omega (arith, fresh, hits_self p, ap (λ x. hits x p) i)) ∙ held,
            tt,
            tt,
          );
          above = (
            (e.0.0, put_self t.nodes p _, Holds-frame s p e.0.2 (λ q o. other q (in_s q o))),
            HoldsAbove-frame t g k p refl e.1 (λ q o. other q (in_k q o)),
          );
          once = once_leaf n (from_left p d s ∷ k) rep.once fresh;
        };
        same_min = m;
      }
  write_slot_lem (from_right s p d ∷ k) held fresh rep =
      let e = rep.above in
      let h = put t.nodes p (rb_node d (up k) (top s) n) in
      let g : Rbtree = record t { nodes = h } in
      let other : (q : Ptr) → q ≢ p → h q ≡ t.nodes q = put-other t.nodes p _ in
      let in_s : (q : Ptr) → 1 ≤ occurs q s → q ≢ p =
        λ q. clash (λ x. occurs x s) q p (occurs_above p k) (omega (arith, rep.once p)) in
      let in_k : (q : Ptr) → 1 ≤ occurs_above q k → q ≢ p =
        λ q. clash (λ x. occurs_above x k) q p (occurs p s) (omega (arith, rep.once p)) in
      record {
        after = g;
        run = set_right-ok t e.0.0 e.0.1 n;
        rep = record {
          below = (
            n_some,
            other n (λ i. omega (arith, fresh, hits_self p, ap (λ x. hits x p) i)) ∙ held,
            tt,
            tt,
          );
          above = (
            (e.0.0, put_self t.nodes p _, Holds-frame s p e.0.2 (λ q o. other q (in_s q o))),
            HoldsAbove-frame t g k p refl e.1 (λ q o. other q (in_k q o)),
          );
          once = once_leaf n (from_right s p d ∷ k) rep.once fresh;
        };
        same_min = m;
      }

-- What the descent ends with.
abbrev pub Descended : Outcome Bool → Ptr → Ptr → Tree → Option Context → Type 0
Descended r n least w none = Yields r false least [] w
Descended r n least w (some k) = Yields r true least k (node leaf n red leaf)

-- One comparison at the node `a`, after which the descent goes on or ends.
module _ (compare : Compare) (n : Ptr) (least : Ptr) (n_some : n ≢ null) where
  pub insert_loop_lem :
      (fuel : ℕ) (t : Rbtree) (k : Context) (s : Tree)
      → t.cached_min ≡ least
      → t.nodes n ≡ some (rb_node red (up k) null null)
      → occurs n s + occurs_above n k ≡ 0
      → Represents t k s
      → size s < fuel
      → Descended
          (insert_loop compare fuel n (slot k) t)
          n
          least
          (plug k s)
          (place_for compare n s k)
  unfolding insert_loop
  insert_loop_lem zero t k s m held fresh rep enough = absurd (omega arith)
  insert_loop_lem (suc fuel) t k leaf m held fresh rep enough =
      let w = write_slot_lem t n least m n_some k held (omega (arith, fresh)) rep in
      record {
        after = w.after;
        run = rw (read_slot_lem t k null rep.above, w.run) refl;
        rep = w.rep;
        same_min = w.same_min;
      }
  insert_loop_lem (suc fuel) t k (node l a c r) m held fresh rep enough =
      let g : Rbtree = record t { nodes = put t.nodes n (rb_node red a null null) } in
      let out : (q : Ptr) → 1 ≤ occurs q (node l a c r) + occurs_above q k → q ≢ n =
        λ q o i. omega (arith, o, fresh, ap (λ x. occurs x (node l a c r) + occurs_above x k) i) in
      let rep' =
        Represents-frame t g k (node l a c r) refl rep (λ q o. put-other t.nodes n _ q (out q o)) in
      let held' : g.nodes n ≡ some (rb_node red a null null) = put_self t.nodes n _ in
      let first_part = read_slot_lem t k a rep.above in
      elim (sign-cases (compare n a)) [
        | inl o ↦
            rw (first_part, not_null rep.below.0, set_parent-ok t n_some held a, o)
              (insert_loop_lem fuel g (from_left a c r ∷ k) l m held' (omega (arith, fresh))
                (descend_left g k l a c r rep') (omega arith))
        | inr (inl o) ↦
            rw (first_part, not_null rep.below.0, set_parent-ok t n_some held a, o)
              (yield g (to_root g k (node l a c r) rep') m)
        | inr (inr o) ↦
            rw (first_part, not_null rep.below.0, set_parent-ok t n_some held a, o)
              (insert_loop_lem fuel g (from_right l a c ∷ k) r m held' (omega (arith, fresh))
                (descend_right g k l a c r rep') (omega arith))
      ]
