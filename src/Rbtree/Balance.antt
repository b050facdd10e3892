-- ===== src/Rbtree/Balance.antt =====
-- The black heights of the trees of src/rbtree.c under the rounds of the insertion.
use kaplarc.Base.{
  ℕ, suc, ◌∷◌, ◌≡◌, refl, sym, subst, ◌∙◌, Bool, true, false, ◌==◌, if◌then◌else◌, arith,
}
use kaplarc.Rbtree.Nodes.{Ptr, Rbtree, red, black}
use kaplarc.Rbtree.Update.{fixup_round}
use kaplarc.Rbtree.Focus.{Yields}
use kaplarc.Rbtree.Fixup.{fixup_round_lem}
use kaplarc.Rbtree.Shape.{
  Tree, leaf, node, Frame, from_left, from_right, Context, address, top, fill, Represents,
}
use kaplarc.Rbtree.Repair.{red_top, blacken, rise_left, round}

-- Every path down from the top meets `h` black nodes.
abbrev pub IsBalanced : ℕ → Tree → Type 0
IsBalanced h leaf = h ≡ 0
IsBalanced h (node l a c r) =
    (below : ℕ) × (h ≡ (if c == black then suc below else below))
    × IsBalanced below l
    × IsBalanced below r

pub IsBalanced-unique : (s : Tree) (h i : ℕ) → IsBalanced h s → IsBalanced i s → h ≡ i
IsBalanced-unique leaf h i e f = e ∙ sym f
IsBalanced-unique (node l a c r) h i (b, e, f, g) (b', e', f', g') =
    let same = IsBalanced-unique l b b' f f' in ground (arith, e, e', same)

at_height : (s : Tree) {h i : ℕ} → h ≡ i → IsBalanced h s → IsBalanced i s
at_height s e b = subst (λ x. IsBalanced x s) e b

if_IsBalanced :
    (t : Bool) (h : ℕ) (s s' : Tree)
    → (t ≡ true → IsBalanced h s)
    → (t ≡ false → IsBalanced h s')
    → IsBalanced h (if t then s else s')
if_IsBalanced true h s s' f g = f refl
if_IsBalanced false h s s' f g = g refl

IsBalanced-blacken :
    (s : Tree) (h : ℕ) → red_top s ≡ true → IsBalanced h s → IsBalanced (suc h) (blacken s)
IsBalanced-blacken leaf h r b = absurd (ground (arith, r))
IsBalanced-blacken (node l a c r) h is_red (b, e, f, g) =
    (h, refl, at_height l (ground (arith, is_red, e)) f, at_height r (ground (arith, is_red, e)) g)

-- The children of a red node have its height, and those of a black node one less.
of_red :
    (l : Tree) (a : Ptr) (r : Tree) (h : ℕ)
    → IsBalanced h (node l a red r)
    → IsBalanced h l × IsBalanced h r
of_red l a r h (b, e, f, g) = (at_height l (sym e) f, at_height r (sym e) g)

of_black :
    (l : Tree) (a : Ptr) (r : Tree) (h : ℕ)
    → IsBalanced (suc h) (node l a black r)
    → IsBalanced h l × IsBalanced h r
of_black l a r h (b, e, f, g) =
    (at_height l (ground (arith, e)) f, at_height r (ground (arith, e)) g)

-- A frame whose colour is changed.
abbrev pub shaded : ℕ → Frame → Frame
shaded c (from_left a d r) = from_left a c r
shaded c (from_right l a d) = from_right l a c

-- A round at a red node keeps all black heights, for a red parent and a black grandparent: on each
-- side, with a red or a black uncle, and for a node on either side of its parent.
pub round-IsBalanced :
    (f g : Frame) (sl : Tree) (n : Ptr) (sr : Tree) (h : ℕ)
    → IsBalanced (suc h) (fill (shaded black g) (fill (shaded red f) (node sl n red sr)))
    → IsBalanced (suc h) (round (shaded red f) (shaded black g) (node sl n red sr))
round-IsBalanced (from_left p pc pr) (from_left g gc gr) sl n sr h b =
    let s = node sl n red sr in
    let (bp, bg) = of_black (node s p red pr) g gr h b in
    let (bs, bpr) = of_red s p pr h bp in
    if_IsBalanced (red_top gr) (suc h) _ _
      (λ r. (suc h, refl, (h, refl, bs, bpr), (IsBalanced-blacken gr h r bg)))
      (λ r. (h, refl, bs, (h, refl, bpr, bg)))
round-IsBalanced (from_right pl p pc) (from_left g gc gr) sl n sr h b =
    let s = node sl n red sr in
    let (bp, bg) = of_black (node pl p red s) g gr h b in
    let (bpl, bs) = of_red pl p s h bp in
    let (bl, br) = of_red sl n sr h bs in
    if_IsBalanced (red_top gr) (suc h) _ _
      (λ r. (suc h, refl, (h, refl, bpl, bs), (IsBalanced-blacken gr h r bg)))
      (λ r. (h, refl, (h, refl, bpl, bl), (h, refl, br, bg)))
round-IsBalanced (from_left p pc pr) (from_right gl g gc) sl n sr h b =
    let s = node sl n red sr in
    let (bg, bp) = of_black gl g (node s p red pr) h b in
    let (bs, bpr) = of_red s p pr h bp in
    let (bl, br) = of_red sl n sr h bs in
    if_IsBalanced (red_top gl) (suc h) _ _
      (λ r. (suc h, refl, (IsBalanced-blacken gl h r bg), (h, refl, bs, bpr)))
      (λ r. (h, refl, (h, refl, bg, bl), (h, refl, br, bpr)))
round-IsBalanced (from_right pl p pc) (from_right gl g gc) sl n sr h b =
    let s = node sl n red sr in
    let (bg, bp) = of_black gl g (node pl p red s) h b in
    let (bpl, bs) = of_red pl p s h bp in
    if_IsBalanced (red_top gl) (suc h) _ _
      (λ r. (suc h, refl, (IsBalanced-blacken gl h r bg), (h, refl, bpl, bs)))
      (λ r. (h, refl, (h, refl, bg, bpl), bs))

-- The loop also makes rounds at a black node, after a rotation below a red grandparent. Where such
-- a node is an inner child and the uncle is black, the round destroys the black heights.
pub round-unbalanced :
    (pl : Tree) (p g : Ptr) (gr sl : Tree) (n : Ptr) (sr : Tree) (h i : ℕ)
    → IsBalanced
        (suc h)
        (fill (from_left g black gr) (fill (from_right pl p red) (node sl n black sr)))
    → red_top gr ≡ false
    → ¬ IsBalanced i (round (from_right pl p red) (from_left g black gr) (node sl n black sr))
round-unbalanced pl p g gr sl n sr h i b black_uncle bad =
    let (bp, bg) = of_black (node pl p red (node sl n black sr)) g gr h b in
    let (bpl, bs) = of_red pl p (node sl n black sr) h bp in
    let rotated : IsBalanced i (rise_left pl p red (node sl n black sr) g gr) =
      rw black_uncle at bad in
    let (x, e, (y, e1, left, inner), right) = rotated in
    omega (arith, IsBalanced-unique pl y h left bpl, IsBalanced-unique sl y bs.0 inner bs.2, bs.1)

-- A round of the loop at a red node, below a red parent and a black grandparent, leaves a subtree
-- with the black heights it had, linked in its place.
pub fixup_round-IsBalanced :
    (t : Rbtree) (k : Context) (f g : Frame) (sl : Tree) (n : Ptr) (sr : Tree) (h : ℕ)
    → Represents t (shaded red f ∷ shaded black g ∷ k) (node sl n red sr)
    → IsBalanced (suc h) (fill (shaded black g) (fill (shaded red f) (node sl n red sr)))
    → (s : Tree) × Yields (fixup_round n (address (shaded red f)) t) (top s) t.cached_min k s
      × IsBalanced (suc h) s
fixup_round-IsBalanced t k f g sl n sr h rep b = (
  round (shaded red f) (shaded black g) (node sl n red sr),
  fixup_round_lem t k t.cached_min refl sl n red sr (shaded red f) (shaded black g) rep,
  round-IsBalanced f g sl n sr h b,
)

-- A round at a black node, which the loop makes after a rotation below a red grandparent: where the
-- node is a right child of a red left child and the uncle is black, the black heights are lost.
pub fixup_round-unbalanced :
    (t : Rbtree) (k : Context) (pl : Tree) (p g : Ptr) (gr sl : Tree) (n : Ptr) (sr : Tree)
    (h i : ℕ)
    → Represents t (from_right pl p red ∷ from_left g black gr ∷ k) (node sl n black sr)
    → IsBalanced (suc h) (node (node pl p red (node sl n black sr)) g black gr)
    → red_top gr ≡ false
    → (s : Tree) × Yields (fixup_round n p t) (top s) t.cached_min k s × ¬ IsBalanced i s
fixup_round-unbalanced t k pl p g gr sl n sr h i rep b black_uncle = (
  round (from_right pl p red) (from_left g black gr) (node sl n black sr),
  fixup_round_lem t k t.cached_min refl sl n black sr (from_right pl p red) (from_left g black gr)
      rep,
  round-unbalanced pl p g gr sl n sr h i b black_uncle,
)
