-- ===== src/Rbtree/Sorted.antt =====
-- The order of a tree as the order of its nodes in a list, for src/rbtree.c.
use Prim.Native.Nat.{Ordering}
use kaplarc.Base.{◌≡◌, refl, ◌∙◌, some, List, [], ◌∷◌, ◌++◌, arith, inl, inr}
use mathlib.Core.List.{append_assoc}
use kaplarc.Rbtree.Nodes.{Ptr, Compare}
use kaplarc.Rbtree.Shape.{Tree, leaf, node, from_left, from_right, Context, inorder, before, after}
use kaplarc.Rbtree.Find.{IsOrder, All, IsOrdered, sign-cases}
use kaplarc.Rbtree.Descent.{place_for}

abbrev pub Each : (Ptr → Type 0) → List Ptr → Type 0
Each P [] = Unit
Each P (x ∷ l) = P x × Each P l

-- Each element is less than those that follow it.
abbrev pub IsSorted : Compare → List Ptr → Type 0
IsSorted compare [] = Unit
IsSorted compare (x ∷ l) = Each (λ q. compare x q ≡ Ordering.lt) l × IsSorted compare l

pub Each-imp : {P Q : Ptr → Type 0} (l : List Ptr) → ((q : Ptr) → P q → Q q) → Each P l → Each Q l
Each-imp [] f e = tt
Each-imp (x ∷ l) f e = (f x e.0, Each-imp l f e.1)

pub Each-append : (P : Ptr → Type 0) (xs ys : List Ptr) → Each P xs → Each P ys → Each P (xs ++ ys)
Each-append P [] ys e f = f
Each-append P (x ∷ xs) ys e f = (e.0, Each-append P xs ys e.1 f)

Each-split : (P : Ptr → Type 0) (xs ys : List Ptr) → Each P (xs ++ ys) → Each P xs × Each P ys
Each-split P [] ys e = (tt, e)
Each-split P (x ∷ xs) ys e = let rest = Each-split P xs ys e.1 in ((e.0, rest.0), rest.1)

-- A sorted list, split at one of its elements.
pub record Parts (compare : Compare) (xs : List Ptr) (a : Ptr) (ys : List Ptr) : Type 0 where
  pub less : Each (λ q. compare q a ≡ Ordering.lt) xs
  pub more : Each (λ q. compare a q ≡ Ordering.lt) ys
  pub sorted_less : IsSorted compare xs
  pub sorted_more : IsSorted compare ys

pub parts :
    (compare : Compare) (xs : List Ptr) (a : Ptr) (ys : List Ptr)
    → IsSorted compare (xs ++ (a ∷ ys))
    → Parts compare xs a ys
parts compare [] a ys s = record { less = tt; more = s.0; sorted_less = tt; sorted_more = s.1 }
parts compare (x ∷ xs) a ys s =
    let rest = parts compare xs a ys s.1 in
    let first_two = Each-split (λ q. compare x q ≡ Ordering.lt) xs (a ∷ ys) s.0 in
    record {
      less = (first_two.1.0, rest.less);
      more = rest.more;
      sorted_less = (first_two.0, rest.sorted_less);
      sorted_more = rest.sorted_more;
    }

-- An element between two sorted parts.
pub IsSorted-between :
    (compare : Compare)
    → IsOrder compare
    → (xs : List Ptr) (a : Ptr) (ys : List Ptr) → IsSorted compare (xs ++ ys)
    → Each (λ q. compare q a ≡ Ordering.lt) xs
    → Each (λ q. compare a q ≡ Ordering.lt) ys
    → IsSorted compare (xs ++ (a ∷ ys))
IsSorted-between compare order [] a ys s less more = (more, s)
IsSorted-between compare order (x ∷ xs) a ys s less more =
    let apart = Each-split (λ q. compare x q ≡ Ordering.lt) xs ys s.0 in
    (
      Each-append (λ q. compare x q ≡ Ordering.lt) xs (a ∷ ys) apart.0 (less.0, apart.1),
      IsSorted-between compare order xs a ys s.1 less.1 more,
    )

All-inorder : (P : Ptr → Type 0) (s : Tree) → Each P (inorder s) → All P s
All-inorder P leaf e = tt
All-inorder P (node l a c r) e =
    let (on_left, here_right) = Each-split P (inorder l) (a ∷ inorder r) e in
    (here_right.0, All-inorder P l on_left, All-inorder P r here_right.1)

pub IsSorted-IsOrdered :
    (compare : Compare) (s : Tree) → IsSorted compare (inorder s) → IsOrdered compare s
IsSorted-IsOrdered compare leaf h = tt
IsSorted-IsOrdered compare (node l a c r) h =
    let p = parts compare (inorder l) a (inorder r) h in
    (
      All-inorder _ l p.less,
      All-inorder _ r p.more,
      IsSorted-IsOrdered compare l p.sorted_less,
      IsSorted-IsOrdered compare r p.sorted_more,
    )

-- The context that the comparisons lead to has the lesser nodes before it and the greater after it.
pub record Fits (compare : Compare) (n : Ptr) (k : Context) (all : List Ptr) : Type 0 where
  pub same : before k ++ after k ≡ all
  pub less : Each (λ q. compare q n ≡ Ordering.lt) (before k)
  pub more : Each (λ q. compare n q ≡ Ordering.lt) (after k)

module _ (compare : Compare) (order : IsOrder compare) (n : Ptr) where
  pub place_for-Fits :
      (s : Tree) (k k' : Context)
      → place_for compare n s k ≡ some k'
      → IsSorted compare (inorder s)
      → Each (λ q. compare q n ≡ Ordering.lt) (before k)
      → Each (λ q. compare n q ≡ Ordering.lt) (after k)
      → Fits compare n k' (before k ++ (inorder s ++ after k))
  place_for-Fits leaf k k' e sorted less more =
      let i : k ≡ k' = cc in rw (← i) (record { same = refl; less = less; more = more })
  place_for-Fits (node l a c r) k k' e sorted less more = elim (sign-cases (compare n a)) [
    | inl o ↦
        let p = parts compare (inorder l) a (inorder r) sorted in
        let rest = place_for-Fits l (from_left a c r ∷ k) k' (rw o at e) p.sorted_less less (
          o,
          Each-append (λ q. compare n q ≡ Ordering.lt) (inorder r) (after k)
              (Each-imp (inorder r) (λ q h. order.lt_trans n a q o h) p.more) more,
        ) in
        record { same = rest.same ∙ simp append_assoc; less = rest.less; more = rest.more }
    | inr (inl o) ↦ absurd (ground (arith, o, e))
    | inr (inr o) ↦
        let p = parts compare (inorder l) a (inorder r) sorted in
        let a_n = order.flip_gt n a o in
        let rest =
          place_for-Fits r (from_right l a c ∷ k) k' (rw o at e) p.sorted_more
            (Each-append (λ q. compare q n ≡ Ordering.lt) (before k) (inorder l ++ (a ∷ [])) less
              (Each-append (λ q. compare q n ≡ Ordering.lt) (inorder l) (a ∷ [])
                (Each-imp (inorder l) (λ q h. order.lt_trans q a n h a_n) p.less) (a_n, tt)))
            more in
        record { same = rest.same ∙ simp append_assoc; less = rest.less; more = rest.more }
  ]
