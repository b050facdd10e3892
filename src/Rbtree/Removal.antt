-- ===== src/Rbtree/Removal.antt =====
-- Removal from the tree of src/rbtree.c.
use kaplarc.Base.{ℕ, zero, suc, Bool, true, ◌==◌, if◌then◌else◌}
use kaplarc.Rbtree.Nodes.{
  Ptr, null, red, black, RbNode, Cmd, out_of_fuel, pure, ◌>>=◌, ◌>>◌, load, set_color, set_parent,
  set_left, set_right, get_min, set_min, is_red,
}
use kaplarc.Rbtree.Search.{leftmost, rbnode_next}
use kaplarc.Rbtree.Update.{replace_child, rbt_rotate_left, rbt_rotate_right}

-- How a round of the loop ends: `break`, or `continue` with new variables.
pub data Next : Type 0 where
  stop : Next
  again : Ptr → Ptr → Next

-- `n == NULL || n->color == BLACK`
unfoldable pub is_black : Ptr → Cmd Bool
is_black p = if p == null then pure true else do n ← load p; pure (n.color == black)

-- Case 2: both children of the sibling are black.
unfoldable pub push_up : Ptr → Ptr → Cmd Next
push_up parent sibling = do
  set_color sibling red
  p ← load parent
  if p.color == red
      then (do set_color parent black; pure stop)
      else if p.parent == null
      then pure stop
      else pure (again parent p.parent)

-- Case 4: the sibling's outer child is red.
unfoldable pub close_left : Ptr → Ptr → Ptr → Cmd Next
close_left parent sibling sright = do
  p ← load parent
  set_color sibling p.color
  set_color parent black
  set_color sright black
  rbt_rotate_left parent
  pure stop

unfoldable pub close_right : Ptr → Ptr → Ptr → Cmd Next
close_right parent sibling sleft = do
  p ← load parent
  set_color sibling p.color
  set_color parent black
  set_color sleft black
  rbt_rotate_right parent
  pure stop

-- Cases 2, 3 and 4, for a black sibling.
unfoldable pub black_sibling_left : Ptr → Ptr → Cmd Next
black_sibling_left parent sibling = do
  s ← load sibling
  outer ← is_black s.right
  if outer
      then (do
        inner ← is_black s.left
        if inner
            then push_up parent sibling
            else do rbt_rotate_right sibling; close_left parent s.left sibling)
      else close_left parent sibling s.right

unfoldable pub black_sibling_right : Ptr → Ptr → Cmd Next
black_sibling_right parent sibling = do
  s ← load sibling
  outer ← is_black s.left
  if outer
      then (do
        inner ← is_black s.right
        if inner
            then push_up parent sibling
            else do rbt_rotate_left sibling; close_right parent s.right sibling)
      else close_right parent sibling s.left

-- Case 1 turns a red sibling into a black one.
unfoldable pub remove_round_left : Ptr → Cmd Next
remove_round_left parent = do
  p ← load parent
  s ← load p.right
  if s.color == red
      then (do
        set_color p.right black
        set_color parent red
        rbt_rotate_left parent
        p1 ← load parent
        black_sibling_left parent p1.right)
      else black_sibling_left parent p.right

unfoldable pub remove_round_right : Ptr → Cmd Next
remove_round_right parent = do
  p ← load parent
  s ← load p.left
  if s.color == red
      then (do
        set_color p.left black
        set_color parent red
        rbt_rotate_right parent
        p1 ← load parent
        black_sibling_right parent p1.left)
      else black_sibling_right parent p.left

unfoldable pub remove_fixup_loop : ℕ → Ptr → Ptr → Cmd (Unit {0})
remove_fixup_loop zero node parent = λ _. out_of_fuel
remove_fixup_loop (suc k) node parent = do
  p ← load parent
  next ← (if p.left == node then remove_round_left parent else remove_round_right parent)
  elim next [ stop ↦ pure tt | again node' parent' ↦ remove_fixup_loop k node' parent' ]

unfoldable pub rbt_remove_fixup : ℕ → Ptr → Ptr → Cmd (Unit {0})
rbt_remove_fixup fuel node parent = do
  r ← is_red node
  if r
      then set_color node black
      else if parent == null
      then pure tt
      else remove_fixup_loop fuel node parent

abbrev pub set_parent_of : Ptr → Ptr → Cmd (Unit {0})
set_parent_of y p = if y == null then pure tt else set_parent y p

-- What the code knows of the removal: the removed colour, where to rebalance, and what takes the
-- place of the node.
pub record Removed : Type 0 where
  pub rm_color : ℕ
  pub rebalance_node : Ptr
  pub rebalance_parent : Ptr
  pub heir : Ptr

-- `y == n->right`: pull the right subtree.
unfoldable pub pull_right : RbNode → Ptr → Cmd Ptr
pull_right x y = do set_left y x.left; set_parent x.left y; pure y

-- `y` is taken out of its place below, and put in the place of `n`.
unfoldable pub lift_min : RbNode → Ptr → RbNode → Cmd Ptr
lift_min x y s = do
  set_left s.parent s.right
  set_parent_of s.right s.parent
  set_left y x.left
  set_parent x.left y
  set_right y x.right
  set_parent x.right y
  pure s.parent

-- Both children: the least node of the right subtree is the heir.
unfoldable pub take_successor : ℕ → RbNode → Cmd Removed
take_successor fuel x = do
  y ← leftmost fuel x.right
  s ← load y
  set_color y x.color
  p ← (if y == x.right then pull_right x y else lift_min x y s)
  pure (record { rm_color = s.color; rebalance_node = s.right; rebalance_parent = p; heir = y })

unfoldable pub detach : ℕ → RbNode → Cmd Removed
detach fuel x =
    if x.left == null
    then pure (record {
      rm_color = x.color;
      rebalance_node = x.right;
      rebalance_parent = x.parent;
      heir = x.right;
    })
    else if x.right == null
    then pure (record {
      rm_color = x.color;
      rebalance_node = x.left;
      rebalance_parent = x.parent;
      heir = x.left;
    })
    else take_successor fuel x

unfoldable pub rbt_remove : ℕ → Ptr → Cmd (Unit {0})
rbt_remove fuel n = do
  least ← get_min
  (if least == n then (do set_min (← rbnode_next fuel n)) else pure tt)
  x ← load n
  r ← detach fuel x
  x1 ← load n
  set_parent_of r.heir x1.parent
  replace_child n r.heir
  if r.rm_color == black then rbt_remove_fixup fuel r.rebalance_node r.rebalance_parent else pure tt
