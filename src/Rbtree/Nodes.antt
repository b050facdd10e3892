-- ===== src/Rbtree/Nodes.antt =====
-- src/rbtree.h and the links of src/rbtree.c: nodes at addresses, the tree's record, and the
-- reads and writes of a field. The functions of src/rbtree.c that only set up or test are here too.
use Prim.Native.Nat.{Ordering}
use kaplarc.Base.{ℕ, Bool, false, Option, none, some, ◌==◌, if◌then◌else◌}

abbrev pub Ptr : Type 0
Ptr = ℕ

abbrev pub null : Ptr
null = 0

abbrev pub red : ℕ
red = 0

abbrev pub black : ℕ
black = 1

pub record RbNode : Type 0 where
  pub color : ℕ
  pub parent : Ptr
  pub left : Ptr
  pub right : Ptr

abbrev pub rb_node : ℕ → Ptr → Ptr → Ptr → RbNode
rb_node c p l r = record { color = c; parent = p; left = l; right = r }

-- The store of nodes and the two pointers of `struct rbtree`; `compare` is an argument of the
-- functions that call it.
pub record Rbtree : Type 0 where
  pub nodes : Ptr → Option RbNode
  pub root : Ptr
  pub cached_min : Ptr

-- The sign of the `int` that a comparison returns.
abbrev pub Compare : Type 0
Compare = Ptr → Ptr → Ordering

abbrev pub by_sign : {A : Type 0} → Ordering → A → A → A → A
by_sign Ordering.lt x y z = x
by_sign Ordering.eq x y z = y
by_sign Ordering.gt x y z = z

-- `fault` is a read or write through NULL or through a pointer to no node.
pub data Outcome (A : Type 0) : Type 0 where
  ok : A → Rbtree → Outcome A
  fault : Outcome A
  out_of_fuel : Outcome A

abbrev pub Cmd : Type 0 → Type 0
Cmd A = Rbtree → Outcome A

abbrev pub pure : {A : Type 0} → A → Cmd A
pure = ok

module _ {A B : Type 0} where
  abbrev pub and_then : Outcome A → (A → Cmd B) → Outcome B
  and_then (ok a t) k = k a t
  and_then fault k = fault
  and_then out_of_fuel k = out_of_fuel

  infixl 5 ◌>>=◌ ◌>>◌
  abbrev pub ◌>>=◌ : Cmd A → (A → Cmd B) → Cmd B
  m >>= k = λ t. and_then (m t) k

  abbrev pub ◌>>◌ : Cmd A → Cmd B → Cmd B
  m >> n = m >>= λ _. n

abbrev pub found_node : Rbtree → Option RbNode → Outcome RbNode
found_node t none = fault
found_node t (some n) = ok n t

-- `*p`
unfoldable pub load : Ptr → Cmd RbNode
load p t = if p == null then fault else found_node t (t.nodes p)

unfoldable pub put : (Ptr → Option RbNode) → Ptr → RbNode → Ptr → Option RbNode
put h p n q = if q == p then some n else h q

abbrev pub write_node : Ptr → RbNode → Cmd (Unit {0})
write_node p n t = ok tt (record t { nodes = put t.nodes p n })

unfoldable pub set_color : Ptr → ℕ → Cmd (Unit {0})
set_color p c = do n ← load p; write_node p (record n { color = c })

unfoldable pub set_parent : Ptr → Ptr → Cmd (Unit {0})
set_parent p q = do n ← load p; write_node p (record n { parent = q })

unfoldable pub set_left : Ptr → Ptr → Cmd (Unit {0})
set_left p q = do n ← load p; write_node p (record n { left = q })

unfoldable pub set_right : Ptr → Ptr → Cmd (Unit {0})
set_right p q = do n ← load p; write_node p (record n { right = q })

abbrev pub get_root : Cmd Ptr
get_root t = ok t.root t

abbrev pub set_root : Ptr → Cmd (Unit {0})
set_root p t = ok tt (record t { root = p })

abbrev pub get_min : Cmd Ptr
get_min t = ok t.cached_min t

abbrev pub set_min : Ptr → Cmd (Unit {0})
set_min p t = ok tt (record t { cached_min = p })

-- `n != NULL && n->color == RED`, the test that the code makes before it follows a node.
unfoldable pub is_red : Ptr → Cmd Bool
is_red p = if p == null then pure false else do n ← load p; pure (n.color == red)

unfoldable pub rbt_init : Rbtree → Rbtree
rbt_init t = record t { root = null; cached_min = null }

unfoldable pub rbt_empty : Rbtree → Bool
rbt_empty t = t.root == null
