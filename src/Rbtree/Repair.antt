-- ===== src/Rbtree/Repair.antt =====
-- `rbt_insert_fixup` of src/rbtree.c as a function on trees: what each round makes of the
-- grandparent's subtree, and the whole tree that the loop leaves.
use mathlib.Core.List.{append_assoc}
use kaplarc.Base.{
  ℕ, ◌≡◌, ◌∙◌, refl, ap, sym, inl, inr, Bool-cases, [], ◌∷◌, ◌++◌, ◌==◌, Bool, true, false,
  if◌then◌else◌,
}
use kaplarc.Rbtree.Nodes.{Ptr, red, black}
use kaplarc.Rbtree.Shape.{
  Tree, leaf, node, Frame, from_left, from_right, Context, fill, plug, inorder, before, after,
  inorder-plug,
}

abbrev pub red_top : Tree → Bool
red_top leaf = false
red_top (node l a c r) = c == red

abbrev pub blacken : Tree → Tree
blacken leaf = leaf
blacken (node l a c r) = node l a black r

abbrev pub shade : Frame → ℕ
shade (from_left a c r) = c
shade (from_right l a c) = c

-- The subtree between two nodes with their outer subtrees: the node rises above both.
abbrev pub rise_left : Tree → Ptr → ℕ → Tree → Ptr → Tree → Tree
rise_left pl p pc leaf g gr = leaf
rise_left pl p pc (node sl n sc sr) g gr = node (node pl p pc sl) n black (node sr g red gr)

abbrev pub rise_right : Tree → Ptr → ℕ → Tree → Ptr → Tree → Tree
rise_right pr p pc leaf g gl = leaf
rise_right pr p pc (node sl n sc sr) g gl = node (node gl g red sl) n black (node sr p pc pr)

-- The grandparent's subtree after a round, for the parent's frame, the grandparent's frame and the
-- node's subtree.
abbrev pub round : Frame → Frame → Tree → Tree
round (from_left p pc pr) (from_left g gc gr) s =
    if red_top gr
    then node (node s p black pr) g red (blacken gr)
    else node s p black (node pr g red gr)
round (from_right pl p pc) (from_left g gc gr) s =
    if red_top gr then node (node pl p black s) g red (blacken gr) else rise_left pl p pc s g gr
round (from_left p pc pr) (from_right gl g gc) s =
    if red_top gl then node (blacken gl) g red (node s p black pr) else rise_right pr p pc s g gl
round (from_right pl p pc) (from_right gl g gc) s =
    if red_top gl
    then node (blacken gl) g red (node pl p black s)
    else node (node gl g red pl) p black s

-- The loop: two frames at a time, while the parent is red.
unfoldable pub repair : Context → Tree → Tree
repair [] s = s
repair (f ∷ []) s = fill f s
repair (f ∷ g ∷ k) s =
    let rest = repair k (round f g s) in if shade f == red then rest else plug k (fill g (fill f s))

-- The top of the whole tree is black.
abbrev pub IsRooted : Context → Type 0
IsRooted [] = Unit
IsRooted (f ∷ []) = shade f ≡ black
IsRooted (f ∷ g ∷ k) = IsRooted (g ∷ k)

pub inorder-blacken : (s : Tree) → inorder (blacken s) ≡ inorder s
inorder-blacken leaf = refl
inorder-blacken (node l a c r) = refl

ruleset orders = (inorder-blacken, append_assoc)

-- A round keeps the order of the nodes.
pub inorder-round :
    (f g : Frame) (sl : Tree) (n sc : ℕ) (sr : Tree)
    → inorder (round f g (node sl n sc sr)) ≡ inorder (fill g (fill f (node sl n sc sr)))
inorder-round (from_left p pc pr) (from_left g gc gr) sl n sc sr = elim (Bool-cases (red_top gr)) [
  | inl r ↦ rw r (simp orders)
  | inr b ↦ rw b (simp orders)
]
inorder-round (from_right pl p pc) (from_left g gc gr) sl n sc sr = elim (Bool-cases (red_top gr)) [
  | inl r ↦ rw r (simp orders)
  | inr b ↦ rw b (simp orders)
]
inorder-round (from_left p pc pr) (from_right gl g gc) sl n sc sr = elim (Bool-cases (red_top gl)) [
  | inl r ↦ rw r (simp orders)
  | inr b ↦ rw b (simp orders)
]
inorder-round (from_right pl p pc) (from_right gl g gc) sl n sc sr =
    elim (Bool-cases (red_top gl)) [ inl r ↦ rw r (simp orders) | inr b ↦ rw b (simp orders) ]

-- The nodes of a tree in a context, in order, depend on the subtree's order alone.
pub inorder-plug_cong :
    (k : Context) (s s' : Tree) → inorder s ≡ inorder s' → inorder (plug k s) ≡ inorder (plug k s')
inorder-plug_cong k s s' e =
    inorder-plug k s ∙ ap (λ l. before k ++ (l ++ after k)) e ∙ sym (inorder-plug k s')

-- A round leaves a node on top.
pub record IsNode (s : Tree) : Type 0 where
  pub left : Tree
  pub key : Ptr
  pub color : ℕ
  pub right : Tree
  pub is : s ≡ node left key color right

pub the_node : (l : Tree) (a c : ℕ) (r : Tree) → IsNode (node l a c r)
the_node l a c r = record { left = l; key = a; color = c; right = r; is = refl }

if_IsNode : (b : Bool) (s s' : Tree) → IsNode s → IsNode s' → IsNode (if b then s else s')
if_IsNode true s s' x y = x
if_IsNode false s s' x y = y

pub round-IsNode :
    (f g : Frame) (sl : Tree) (n sc : ℕ) (sr : Tree) → IsNode (round f g (node sl n sc sr))
round-IsNode (from_left p pc pr) (from_left g gc gr) sl n sc sr =
    if_IsNode (red_top gr) _ _ (the_node _ _ _ _) (the_node _ _ _ _)
round-IsNode (from_right pl p pc) (from_left g gc gr) sl n sc sr =
    if_IsNode (red_top gr) _ _ (the_node _ _ _ _) (the_node _ _ _ _)
round-IsNode (from_left p pc pr) (from_right gl g gc) sl n sc sr =
    if_IsNode (red_top gl) _ _ (the_node _ _ _ _) (the_node _ _ _ _)
round-IsNode (from_right pl p pc) (from_right gl g gc) sl n sc sr =
    if_IsNode (red_top gl) _ _ (the_node _ _ _ _) (the_node _ _ _ _)

-- The loop keeps the order of the nodes.
pub inorder-repair : (k : Context) (s : Tree) → IsNode s → inorder (repair k s) ≡ inorder (plug k s)
unfolding repair
inorder-repair [] s is = refl
inorder-repair (f ∷ []) s is = refl
inorder-repair (f ∷ g ∷ k) s is = elim (Bool-cases (shade f == red)) [
  | inl r ↦ rw r (
      rw (is.is) (
        inorder-repair k _ (round-IsNode f g is.left is.key is.color is.right)
        ∙ inorder-plug_cong k _ _ (inorder-round f g is.left is.key is.color is.right)))
  | inr b ↦ rw b refl
]

plug-IsNode : (k : Context) (s : Tree) → IsNode s → IsNode (plug k s)
plug-IsNode [] s is = is
plug-IsNode (from_left a c r ∷ k) s is = plug-IsNode k _ (the_node s a c r)
plug-IsNode (from_right l a c ∷ k) s is = plug-IsNode k _ (the_node l a c s)

pub repair-IsNode : (k : Context) (s : Tree) → IsNode s → IsNode (repair k s)
unfolding repair
repair-IsNode [] s is = is
repair-IsNode (f ∷ []) s is = plug-IsNode (f ∷ []) s is
repair-IsNode (f ∷ g ∷ k) s is =
    if_IsNode (shade f == red) _ _
      (repair-IsNode k _ (rw (is.is) (round-IsNode f g is.left is.key is.color is.right)))
      (plug-IsNode (f ∷ g ∷ k) s is)
