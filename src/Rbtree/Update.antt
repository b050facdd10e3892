-- ===== src/Rbtree/Update.antt =====
-- Rotations and insertion of src/rbtree.c.
use kaplarc.Base.{ℕ, zero, suc, Bool, true, false, ◌==◌, if◌then◌else◌}
use kaplarc.Rbtree.Nodes.{
  Ptr, null, red, black, rb_node, Compare, by_sign, Cmd, out_of_fuel, pure, ◌>>=◌, ◌>>◌, load,
  write_node, set_color, set_parent, set_left, set_right, get_root, set_root, get_min, set_min,
  is_red,
}

-- `if(a->parent != NULL) … else t->root = c;`: whatever points down to `a` points to `c`.
unfoldable pub replace_child : Ptr → Ptr → Cmd (Unit {0})
replace_child a c = do
  x ← load a
  if x.parent == null
      then set_root c
      else do p ← load x.parent; if p.left == a then set_left x.parent c else set_right x.parent c

-- What the rotations do below the link that points to `a`.
unfoldable pub turn_left : Ptr → Ptr → Cmd (Unit {0})
turn_left a c = do
  x ← load a
  set_parent c x.parent
  set_parent a c
  y ← load c
  set_right a y.left
  set_left c a
  z ← load a
  if z.right == null then pure tt else set_parent z.right a

unfoldable pub turn_right : Ptr → Ptr → Cmd (Unit {0})
turn_right a b = do
  x ← load a
  set_parent b x.parent
  set_parent a b
  y ← load b
  set_left a y.right
  set_right b a
  z ← load a
  if z.left == null then pure tt else set_parent z.left a

unfoldable pub rbt_rotate_left : Ptr → Cmd (Unit {0})
rbt_rotate_left a = do x ← load a; replace_child a x.right; turn_left a x.right

unfoldable pub rbt_rotate_right : Ptr → Cmd (Unit {0})
rbt_rotate_right a = do x ← load a; replace_child a x.left; turn_right a x.left

-- The uncle is red: `node` becomes the grandparent.
unfoldable pub recolor : Ptr → Ptr → Ptr → Cmd Ptr
recolor parent gparent uncle = do
  set_color parent black
  set_color gparent red
  set_color uncle black
  pure gparent

-- The uncle is not red, `parent` is a left child: the next `node`.
unfoldable pub rebalance_left : Ptr → Ptr → Ptr → Cmd Ptr
rebalance_left node parent gparent = do
  p ← load parent
  if p.right == node
      then (do
        rbt_rotate_left parent
        rbt_rotate_right gparent
        set_color node black
        set_color gparent red
        pure node)
      else do rbt_rotate_right gparent; set_color parent black; set_color gparent red; pure parent

unfoldable pub rebalance_right : Ptr → Ptr → Ptr → Cmd Ptr
rebalance_right node parent gparent = do
  p ← load parent
  if p.left == node
      then (do
        rbt_rotate_right parent
        rbt_rotate_left gparent
        set_color node black
        set_color gparent red
        pure node)
      else do rbt_rotate_left gparent; set_color parent black; set_color gparent red; pure parent

-- The body of the loop, for `node` below the red `parent`.
unfoldable pub fixup_round : Ptr → Ptr → Cmd Ptr
fixup_round node parent = do
  p ← load parent
  let gparent = p.parent
  g ← load gparent
  if g.left == parent
      then (do
        r ← is_red g.right
        if r then recolor parent gparent g.right else rebalance_left node parent gparent)
      else do
        r ← is_red g.left
        if r then recolor parent gparent g.left else rebalance_right node parent gparent

unfoldable pub fixup_loop : ℕ → Ptr → Cmd (Unit {0})
fixup_loop zero node = λ _. out_of_fuel
fixup_loop (suc k) node = do
  x ← load node
  r ← is_red x.parent
  if r then (do fixup_loop k (← fixup_round node x.parent)) else pure tt

unfoldable pub rbt_insert_fixup : ℕ → Ptr → Cmd (Unit {0})
rbt_insert_fixup fuel node = do fixup_loop fuel node; root ← get_root; set_color root black

-- The `struct rbnode **y` of the descent: the link that is to be written.
pub data Slot : Type 0 where
  at_root : Slot
  left_of : Ptr → Slot
  right_of : Ptr → Slot

unfoldable pub read_slot : Slot → Cmd Ptr
read_slot at_root = get_root
read_slot (left_of p) = do x ← load p; pure x.left
read_slot (right_of p) = do x ← load p; pure x.right

unfoldable pub write_slot : Slot → Ptr → Cmd (Unit {0})
write_slot at_root n = set_root n
write_slot (left_of p) n = set_left p n
write_slot (right_of p) n = set_right p n

-- `while(*y != NULL)`: false when an equal node is met.
unfoldable pub insert_loop : Compare → ℕ → Ptr → Slot → Cmd Bool
insert_loop compare zero n y = λ _. out_of_fuel
insert_loop compare (suc k) n y = do
  cur ← read_slot y
  if cur == null then (do write_slot y n; pure true) else do
    set_parent n cur
    by_sign (compare n cur) (insert_loop compare k n (left_of cur)) (pure false)
        (insert_loop compare k n (right_of cur))

-- `if(t->cached_min == NULL || compare(n, t->cached_min) < 0)`
unfoldable pub cache_min : Compare → Ptr → Cmd (Unit {0})
cache_min compare n = do
  least ← get_min
  if least == null then set_min n else by_sign (compare n least) (set_min n) (pure tt) (pure tt)

-- The caller's object becomes a red node with no links.
unfoldable pub clear_links : Ptr → Cmd (Unit {0})
clear_links n = do _ ← load n; write_node n (rb_node red null null null)

unfoldable pub rbt_insert : Compare → ℕ → Ptr → Cmd Bool
rbt_insert compare fuel n = do
  clear_links n
  root ← get_root
  fresh ← (if root == null then (do set_root n; pure true) else insert_loop compare fuel n at_root)
  if fresh then (do cache_min compare n; rbt_insert_fixup fuel n; pure true) else pure false
