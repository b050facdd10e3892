-- ===== src/Rbtree/Find.antt =====
-- What `rbt_find` of src/rbtree.c returns on a tree that is ordered as `rbt_insert` orders it.
use Prim.Native.Nat.{Ordering}
use kaplarc.Base.{
  ℕ, zero, suc, ◌<◌, ◌≡◌, ◌≢◌, refl, ap, ◌∙◌, ◌⊎◌, inl, inr, true, false, some, [], arith, ◌==◌,
}
use kaplarc.Rbtree.Nodes.{Ptr, null, RbNode, Rbtree, Compare, by_sign, ok, load}
use kaplarc.Rbtree.Search.{find_loop, rbt_find}
use kaplarc.Rbtree.Shape.{Tree, leaf, node, top, size, Holds, Represents}

-- What the library asks of a comparison: a strict order, in which equal elements compare alike.
pub record IsOrder (compare : Compare) : Type 0 where
  pub flip_lt : (a b : Ptr) → compare a b ≡ Ordering.lt → compare b a ≡ Ordering.gt
  pub flip_gt : (a b : Ptr) → compare a b ≡ Ordering.gt → compare b a ≡ Ordering.lt
  pub lt_trans :
      (a b c : Ptr)
      → compare a b ≡ Ordering.lt
      → compare b c ≡ Ordering.lt
      → compare a c ≡ Ordering.lt

abbrev pub All : (Ptr → Type 0) → Tree → Type 0
All P leaf = Unit
All P (node l a c r) = P a × All P l × All P r

-- The lesser elements are on the left, as `compare(n, *y) < 0` of the insertion sends them.
abbrev pub IsOrdered : Compare → Tree → Type 0
IsOrdered compare leaf = Unit
IsOrdered compare (node l a c r) =
    All (λ q. compare q a ≡ Ordering.lt) l
    × All (λ q. compare a q ≡ Ordering.lt) r
    × IsOrdered compare l
    × IsOrdered compare r

pub not_null : {p : Ptr} → p ≢ null → (p == null) ≡ false
not_null e = ground arith

pub ==-self : (p : Ptr) → (p == p) ≡ true
==-self p = ground arith

pub ==-apart : (p q : Ptr) → p ≢ q → (p == q) ≡ false
==-apart p q e = ground arith

pub load-ok :
    {p : Ptr} {x : RbNode} {t : Rbtree} → p ≢ null → t.nodes p ≡ some x → load p t ≡ ok x t
unfolding load
load-ok e h = ground arith

pub All-imp : {P Q : Ptr → Type 0} (s : Tree) → ((q : Ptr) → P q → Q q) → All P s → All Q s
All-imp leaf f a = tt
All-imp (node l a c r) f e = (f a e.0, All-imp l f e.1, All-imp r f e.2)

find_end :
    (compare : Compare) (k n : ℕ) (t : Rbtree) → find_loop compare (suc k) n null t ≡ ok null t
unfolding find_loop
find_end compare k n t = refl

module _ (compare : Compare) (n : Ptr) (t : Rbtree) where
  -- Where every node is less than `n`, the search goes left until it ends.
  find_left :
      (k : ℕ) (s : Tree) (p : Ptr)
      → Holds t.nodes p s
      → All (λ q. compare q n ≡ Ordering.lt) s
      → size s < k
      → find_loop compare k n (top s) t ≡ ok null t
  unfolding find_loop
  find_left zero s p e less fuel = absurd (omega arith)
  find_left (suc k) leaf p e less fuel = refl
  find_left (suc k) (node l a c r) p e less fuel =
      ground (arith, load-ok {t = t} e.0 e.1, less.0, find_left k l a e.2 less.1 (omega arith))

  find_right :
      (k : ℕ) (s : Tree) (p : Ptr)
      → Holds t.nodes p s
      → All (λ q. compare q n ≡ Ordering.gt) s
      → size s < k
      → find_loop compare k n (top s) t ≡ ok null t
  unfolding find_loop
  find_right zero s p e less fuel = absurd (omega arith)
  find_right (suc k) leaf p e less fuel = refl
  find_right (suc k) (node l a c r) p e less fuel =
      ground (arith, load-ok {t = t} e.0 e.1, less.0, find_right k r a e.3 less.2 (omega arith))

-- The root, if it is equal to `n`.
abbrev pub root_if_equal : Compare → Ptr → Tree → Ptr
root_if_equal compare n leaf = null
root_if_equal compare n (node l a c r) = by_sign (compare a n) null a null

pub sign-cases : (o : Ordering) → (o ≡ Ordering.lt) ⊎ (o ≡ Ordering.eq) ⊎ (o ≡ Ordering.gt)
sign-cases Ordering.lt = inl refl
sign-cases Ordering.eq = inr (inl refl)
sign-cases Ordering.gt = inr (inr refl)

module _ (compare : Compare) (order : IsOrder compare) (n : Ptr) (t : Rbtree) (k : ℕ) (l : Tree)
    (a c : ℕ) (r : Tree) (p : Ptr) (e : Holds t.nodes p (node l a c r))
    (sorted : IsOrdered compare (node l a c r)) (enough : size (node l a c r) < suc k) where
  find_below : compare a n ≡ Ordering.lt → find_loop compare k n (top l) t ≡ ok null t
  find_below o =
      let less = λ (q : Ptr) (b : compare q a ≡ Ordering.lt). order.lt_trans q a n b o in
      find_left compare n t k l a e.2 (All-imp l less sorted.0) (omega arith)

  find_above : compare a n ≡ Ordering.gt → find_loop compare k n (top r) t ≡ ok null t
  find_above o =
      let more = λ (q : Ptr) (b : compare a q ≡ Ordering.lt).
        order.flip_lt n q (order.lt_trans n a q (order.flip_gt a n o) b) in
      find_right compare n t k r a e.3 (All-imp r more sorted.1) (omega arith)

  find_root : find_loop compare (suc k) n a t ≡ ok (root_if_equal compare n (node l a c r)) t
  unfolding find_loop
  find_root = elim (sign-cases (compare a n)) [
    | inl o ↦ ground (arith, load-ok {t = t} e.0 e.1, find_below o)
    | inr (inl o) ↦ ground (arith, o)
    | inr (inr o) ↦ ground (arith, load-ok {t = t} e.0 e.1, find_above o)
  ]

-- The search, on an ordered tree.
pub find_ordered :
    (compare : Compare) (n fuel : ℕ) (t : Rbtree) (s : Tree)
    → IsOrder compare
    → Represents t [] s
    → IsOrdered compare s
    → size s < fuel
    → rbt_find compare fuel n t ≡ ok (root_if_equal compare n s) t
unfolding rbt_find
find_ordered compare n zero t s order rep sorted enough = absurd (omega arith)
find_ordered compare n (suc k) t leaf order rep sorted enough =
    ap (λ x. find_loop compare (suc k) n x t) rep.above ∙ find_end compare k n t
find_ordered compare n (suc k) t (node l a c r) order rep sorted enough =
    ap (λ x. find_loop compare (suc k) n x t) rep.above
    ∙ find_root compare order n t k l a c r null rep.below sorted enough
