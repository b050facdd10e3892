-- ===== src/Rbtree/Shape.antt =====
-- What the links of src/rbtree.c represent: a binary tree in a context of ancestors.
use mathlib.Core.List.{append-nil, append_assoc}
use kaplarc.Base.{
  refl, ℕ, suc, ◌+◌, ◌≤◌, ◌≡◌, ◌≢◌, Option, some, List, [], ◌∷◌, ◌++◌, ◌==◌, if◌then◌else◌, arith,
}
use kaplarc.Rbtree.Nodes.{Ptr, null, RbNode, rb_node, Rbtree}

abbrev pub Store : Type 0
Store = Ptr → Option RbNode

-- A subtree: its node's address and colour between the two children.
pub data Tree : Type 0 where
  leaf : Tree
  node : Tree → Ptr → ℕ → Tree → Tree

-- One step up: the address and colour of the parent, and the other child.
pub data Frame : Type 0 where
  from_left : Ptr → ℕ → Tree → Frame
  from_right : Tree → Ptr → ℕ → Frame

-- The ancestors of a subtree, the nearest first.
abbrev pub Context : Type 0
Context = List Frame

abbrev pub top : Tree → Ptr
top leaf = null
top (node l a c r) = a

abbrev pub address : Frame → Ptr
address (from_left a c r) = a
address (from_right l a c) = a

-- The parent of the subtree in the context.
abbrev pub up : Context → Ptr
up [] = null
up (f ∷ k) = address f

abbrev pub fill : Frame → Tree → Tree
fill (from_left a c r) t = node t a c r
fill (from_right l a c) t = node l a c t

-- The whole tree.
abbrev pub plug : Context → Tree → Tree
plug [] t = t
plug (f ∷ k) t = plug k (fill f t)

abbrev pub inorder : Tree → List Ptr
inorder leaf = []
inorder (node l a c r) = inorder l ++ (a ∷ inorder r)

-- The nodes before and after the subtree, in order.
abbrev pub before : Context → List Ptr
before [] = []
before (from_left a c r ∷ k) = before k
before (from_right l a c ∷ k) = before k ++ (inorder l ++ (a ∷ []))

abbrev pub after : Context → List Ptr
after [] = []
after (from_left a c r ∷ k) = a ∷ (inorder r ++ after k)
after (from_right l a c ∷ k) = after k

abbrev pub size : Tree → ℕ
size leaf = 0
size (node l a c r) = suc (size l + size r)

-- How often an address occurs.
abbrev pub hits : Ptr → Ptr → ℕ
hits q a = if q == a then 1 else 0

abbrev pub occurs : Ptr → Tree → ℕ
occurs q leaf = 0
occurs q (node l a c r) = occurs q l + hits q a + occurs q r

abbrev pub occurs_frame : Ptr → Frame → ℕ
occurs_frame q (from_left a c r) = hits q a + occurs q r
occurs_frame q (from_right l a c) = occurs q l + hits q a

abbrev pub occurs_above : Ptr → Context → ℕ
occurs_above q [] = 0
occurs_above q (f ∷ k) = occurs_frame q f + occurs_above q k

-- The store links the subtree `t` below the parent `p`.
abbrev pub Holds : Store → Ptr → Tree → Type 0
Holds h p leaf = Unit
Holds h p (node l a c r) =
    (a ≢ null) × (h a ≡ some (rb_node c p (top l) (top r))) × Holds h a l × Holds h a r

-- The store links a frame below the parent `p`, with `x` in the place of the subtree.
abbrev pub HoldsFrame : Store → Ptr → Ptr → Frame → Type 0
HoldsFrame h p x (from_left a c r) = (a ≢ null) × (h a ≡ some (rb_node c p x (top r))) × Holds h a r
HoldsFrame h p x (from_right l a c) =
    (a ≢ null) × (h a ≡ some (rb_node c p (top l) x)) × Holds h a l

-- The ancestors of `x` are linked, up to the root.
abbrev pub HoldsAbove : Rbtree → Ptr → Context → Type 0
HoldsAbove t x [] = t.root ≡ x
HoldsAbove t x (f ∷ k) = HoldsFrame t.nodes (up k) x f × HoldsAbove t (address f) k

-- The tree `t` is the plugged tree, seen from a subtree of it.
pub record Represents (t : Rbtree) (k : Context) (s : Tree) : Type 0 where
  pub below : Holds t.nodes (up k) s
  pub above : HoldsAbove t (top s) k
  pub once : (q : Ptr) → occurs q s + occurs_above q k ≤ 1

pub hits_self : (q : Ptr) → hits q q ≡ 1
hits_self q = ground arith

module _ {h g : Store} where
  -- A subtree does not notice writes elsewhere.
  pub Holds-frame :
      (s : Tree) (p : Ptr) → Holds h p s → ((q : Ptr) → 1 ≤ occurs q s → g q ≡ h q) → Holds g p s
  Holds-frame leaf p e same = tt
  Holds-frame (node l a c r) p e same = (
    e.0,
    ground (arith, same a),
    Holds-frame l a e.2 (λ q m. same q (omega arith)),
    Holds-frame r a e.3 (λ q m. same q (omega arith)),
  )

  -- The subtree is hung below another parent.
  pub Holds-hang :
      (s : Tree) (p p' : Ptr)
      → Holds h p s
      → occurs (top s) s ≤ 1
      → ((q : Ptr) → 1 ≤ occurs q s → q ≢ top s → g q ≡ h q)
      → ((x : RbNode)
          → top s ≢ null
          → h (top s) ≡ some x
          → g (top s) ≡ some (record x { parent = p' }))
      → Holds g p' s
  Holds-hang leaf p p' e once same hung = tt
  Holds-hang (node l a c r) p p' e once same hung = (
    e.0,
    hung _ e.0 e.1,
    Holds-frame l a e.2 (λ q m. same q (omega arith) (λ i. absurd (ground (arith, i)))),
    Holds-frame r a e.3 (λ q m. same q (omega arith) (λ i. absurd (ground (arith, i)))),
  )

-- The top of a subtree is null, or one of its nodes.
pub occurs-top : (s : Tree) → top s ≢ null → 1 ≤ occurs (top s) s
occurs-top leaf e = absurd (e refl)
occurs-top (node l a c r) e = ground arith

-- The whole tree's nodes in order, seen from a subtree.
pub inorder-plug :
    (k : Context) (s : Tree) → inorder (plug k s) ≡ before k ++ (inorder s ++ after k)
inorder-plug [] s = simp append-nil
inorder-plug (from_left a c r ∷ k) s = simp (inorder-plug k, append_assoc)
inorder-plug (from_right l a c ∷ k) s = simp (inorder-plug k, append_assoc)
