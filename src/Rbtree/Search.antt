-- ===== src/Rbtree/Search.antt =====
-- The traversals of src/rbtree.c. A loop that follows pointers runs on fuel.
use kaplarc.Base.{ℕ, zero, suc, ◌==◌, if◌then◌else◌}
use kaplarc.Rbtree.Nodes.{
  Ptr, null, Compare, by_sign, Cmd, out_of_fuel, pure, ◌>>=◌, load, get_root, get_min,
}

-- `while(cur != NULL)`: a negative comparison of the current node with `n` goes left.
unfoldable pub find_loop : Compare → ℕ → Ptr → Ptr → Cmd Ptr
find_loop compare zero n cur = λ _. out_of_fuel
find_loop compare (suc k) n cur =
    if cur == null
    then pure cur
    else by_sign (compare cur n) (do x ← load cur; find_loop compare k n x.left) (pure cur)
        (do x ← load cur; find_loop compare k n x.right)

unfoldable pub rbt_find : Compare → ℕ → Ptr → Cmd Ptr
rbt_find compare fuel n = do find_loop compare fuel n (← get_root)

-- `while(cur->left != NULL) cur = cur->left;`
unfoldable pub leftmost : ℕ → Ptr → Cmd Ptr
leftmost zero cur = λ _. out_of_fuel
leftmost (suc k) cur = do x ← load cur; if x.left == null then pure cur else leftmost k x.left

-- `while(cur->right != NULL) cur = cur->right;`
unfoldable pub rightmost : ℕ → Ptr → Cmd Ptr
rightmost zero cur = λ _. out_of_fuel
rightmost (suc k) cur = do x ← load cur; if x.right == null then pure cur else rightmost k x.right

-- With RBTREE_CACHED_MIN, as the header defines it.
unfoldable pub rbt_min : Cmd Ptr
rbt_min = get_min

-- `if(cur != NULL)`
unfoldable pub max_from : ℕ → Ptr → Cmd Ptr
max_from fuel cur = if cur == null then pure cur else rightmost fuel cur

unfoldable pub rbt_max : ℕ → Cmd Ptr
rbt_max fuel = do max_from fuel (← get_root)

-- `while(cur->parent && cur->parent->left != cur) cur = cur->parent;` and the step that follows.
unfoldable pub climb_next : ℕ → Ptr → Cmd Ptr
climb_next zero cur = λ _. out_of_fuel
climb_next (suc k) cur = do
  x ← load cur
  if x.parent == null
      then pure x.parent
      else do p ← load x.parent; if p.left == cur then pure x.parent else climb_next k x.parent

unfoldable pub climb_prev : ℕ → Ptr → Cmd Ptr
climb_prev zero cur = λ _. out_of_fuel
climb_prev (suc k) cur = do
  x ← load cur
  if x.parent == null
      then pure x.parent
      else do p ← load x.parent; if p.right == cur then pure x.parent else climb_prev k x.parent

unfoldable pub rbnode_next : ℕ → Ptr → Cmd Ptr
rbnode_next fuel cur =
    if cur == null
    then pure null
    else do x ← load cur; if x.right == null then climb_next fuel cur else leftmost fuel x.right

unfoldable pub rbnode_prev : ℕ → Ptr → Cmd Ptr
rbnode_prev fuel cur =
    if cur == null
    then pure null
    else do x ← load cur; if x.left == null then climb_prev fuel cur else rightmost fuel x.left
