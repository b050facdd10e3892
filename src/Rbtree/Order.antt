-- ===== src/Rbtree/Order.antt =====
-- The traversals of src/rbtree.c, for a node given by its place in the order of the tree.
use mathlib.Core.List.{append-nil, append_assoc}
use kaplarc.Base.{ℕ, ◌+◌, ◌<◌, ◌≤◌, ◌≡◌, refl, ap, subst, ◌∙◌, List, [], ◌∷◌, ◌++◌, arith, length}
use kaplarc.Rbtree.Nodes.{Ptr, null, Rbtree, ok}
use kaplarc.Rbtree.Search.{max_from, rbt_max, rbnode_next, rbnode_prev}
use kaplarc.Rbtree.Shape.{
  Tree, leaf, node, from_left, from_right, Context, inorder, before, after, size, Represents,
}
use kaplarc.Rbtree.Find.{not_null}
use kaplarc.Rbtree.Walk.{first, last, descend_left, descend_right, next_at, prev_at, rightmost_lem}

-- Where the element `a` of a list made of two parts and `b` between them stands.
data Place (us : List Ptr) (b : Ptr) (vs xs : List Ptr) (a : Ptr) (ys : List Ptr) : Type 0 where
  on_left : (zs : List Ptr) → us ≡ xs ++ (a ∷ zs) → ys ≡ zs ++ (b ∷ vs) → Place us b vs xs a ys
  between : us ≡ xs → b ≡ a → vs ≡ ys → Place us b vs xs a ys
  on_right : (zs : List Ptr) → xs ≡ us ++ (b ∷ zs) → vs ≡ zs ++ (a ∷ ys) → Place us b vs xs a ys

Place-cons :
    {us vs xs ys : List Ptr} {a b : Ptr} (u : Ptr)
    → Place us b vs xs a ys
    → Place (u ∷ us) b vs (u ∷ xs) a ys
Place-cons u (on_left zs e f) = on_left zs (ap (λ l. u ∷ l) e) f
Place-cons u (between e f g) = between (ap (λ l. u ∷ l) e) f g
Place-cons u (on_right zs e f) = on_right zs (ap (λ l. u ∷ l) e) f

place :
    (us : List Ptr) (b : Ptr) (vs xs : List Ptr) (a : Ptr) (ys : List Ptr)
    → us ++ (b ∷ vs) ≡ xs ++ (a ∷ ys)
    → Place us b vs xs a ys
place [] b vs [] a ys e = between refl (cc) (cc)
place [] b vs (x ∷ xs) a ys e = on_right xs (cc) (cc)
place (u ∷ us) b vs [] a ys e = on_left us (cc) (cc)
place (u ∷ us) b vs (x ∷ xs) a ys e =
    let heads : u ≡ x = cc in
    let tails : us ++ (b ∷ vs) ≡ xs ++ (a ∷ ys) = cc in
    rw (← heads) (Place-cons u (place us b vs xs a ys tails))

-- A node of a represented tree with the context in which it stands.
record At (t : Rbtree) (a : Ptr) (xs ys : List Ptr) (depth : ℕ) : Type 0 where
  context : Context
  left : Tree
  color : ℕ
  right : Tree
  seen : Represents t context (node left a color right)
  earlier : before context ++ inorder left ≡ xs
  later : inorder right ++ after context ≡ ys
  near : length context + size left + size right < depth

moved :
    {t : Rbtree} {a : Ptr} {xs xs' ys ys' : List Ptr} {d d' : ℕ}
    → xs ≡ xs'
    → ys ≡ ys'
    → d ≤ d'
    → At t a xs ys d
    → At t a xs' ys' d'
moved e f g s = record {
  context = s.context;
  left = s.left;
  color = s.color;
  right = s.right;
  seen = s.seen;
  earlier = s.earlier ∙ e;
  later = s.later ∙ f;
  near = omega (arith, s.near);
}

focus :
    (t : Rbtree) (s : Tree) (k : Context) (xs : List Ptr) (a : Ptr) (ys : List Ptr)
    → Represents t k s
    → inorder s ≡ xs ++ (a ∷ ys)
    → At t a (before k ++ xs) (ys ++ after k) (length k + size s)
focus t leaf k [] a ys rep e = cc
focus t leaf k (x ∷ xs) a ys rep e = cc
focus t (node l b c r) k xs a ys rep e = elim (place (inorder l) b (inorder r) xs a ys e) [
  | on_left zs f g ↦
      moved refl (simp (g, append_assoc)) (omega arith)
        (focus t l (from_left b c r ∷ k) xs a zs (descend_left t k l b c r rep) f)
  | between f g h ↦ record {
    context = k;
    left = l;
    color = c;
    right = r;
    seen = subst (λ q. Represents t k (node l q c r)) g rep;
    earlier = ap (λ u. before k ++ u) f;
    later = ap (λ v. v ++ after k) h;
    near = omega arith;
  }
  | on_right zs f g ↦
      moved (simp (f, append_assoc)) refl (omega arith)
        (focus t r (from_right l b c ∷ k) zs a ys (descend_right t k l b c r rep) g)
]

module _ (t : Rbtree) (s : Tree) (fuel : ℕ) (xs ys : List Ptr) (a : Ptr) (rep : Represents t [] s)
    (position : inorder s ≡ xs ++ (a ∷ ys)) (enough : size s < fuel) where
  At-node : At t a xs ys (size s)
  At-node = moved refl (append-nil ys) (omega arith) (focus t s [] xs a ys rep position)

  -- In a tree whose nodes in order are `xs`, `a` and `ys`, with more fuel than nodes,
  -- `rbnode_next` goes from `a` to the first of `ys`, and is NULL where `ys` is empty.
  pub rbnode_next_lem : rbnode_next fuel a t ≡ ok (first ys) t
  rbnode_next_lem =
      let s' = At-node in
      next_at t s'.context fuel s'.left a s'.color s'.right s'.seen (omega (arith, s'.near))
      ∙ ap (λ l. ok (first l) t) s'.later

  -- In a tree whose nodes in order are `xs`, `a` and `ys`, with more fuel than nodes,
  -- `rbnode_prev` goes from `a` to the last of `xs`, and is NULL where `xs` is empty.
  pub rbnode_prev_lem : rbnode_prev fuel a t ≡ ok (last xs) t
  rbnode_prev_lem =
      let s' = At-node in
      prev_at t s'.context fuel s'.left a s'.color s'.right s'.seen (omega (arith, s'.near))
      ∙ ap (λ l. ok (last l) t) s'.earlier

-- In a represented tree, with more fuel than nodes, `rbt_max` is the last node in order, and NULL
-- where the tree is empty.
pub rbt_max_lem :
    (t : Rbtree) (s : Tree) (fuel : ℕ)
    → Represents t [] s
    → size s < fuel
    → rbt_max fuel t ≡ ok (last (inorder s)) t
unfolding rbt_max max_from
rbt_max_lem t leaf fuel rep enough = ap (λ p. max_from fuel p t) rep.above
rbt_max_lem t (node l a c r) fuel rep enough =
    ap (λ p. max_from fuel p t) rep.above
    ∙ rw (not_null rep.below.0) (rightmost_lem t fuel r a c l null [] rep.below (omega arith))
