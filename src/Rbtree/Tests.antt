-- ===== src/Rbtree/Tests.antt =====
-- Runs of src/rbtree.c on small trees, and the theorems at concrete trees.
use Prim.Native.Nat.{compare}
use kaplarc.Base.{
  ℕ, zero, suc, ◌≡◌, refl, Bool, Option, none, some, List, [], ◌∷◌, ◌==◌, arith, if◌then◌else◌,
}
use kaplarc.Rbtree.Nodes.{
  Ptr, null, red, black, RbNode, rb_node, Rbtree, Outcome, ok, load, put, set_color, set_parent,
  set_left, set_right, is_red, rbt_init,
}
use kaplarc.Rbtree.Search.{
  find_loop, rbt_find, leftmost, rbt_min, rbt_max, rightmost, max_from, climb_next, climb_prev,
  rbnode_next, rbnode_prev,
}
use kaplarc.Rbtree.Shape.{Tree, leaf, node, from_left, from_right, top, Represents}
use kaplarc.Rbtree.Find.{IsOrder}
use kaplarc.Rbtree.Turn.{rbt_rotate_left_lem}
use kaplarc.Rbtree.Focus.{Yields}
use kaplarc.Rbtree.Balance.{IsBalanced, fixup_round-IsBalanced, fixup_round-unbalanced}
use kaplarc.Rbtree.Order.{rbnode_next_lem}
use kaplarc.Rbtree.Insertion.{IsTree, Insertion, rbt_insert_lem}
use kaplarc.Rbtree.Lookup.{rbt_find_lem}
use kaplarc.Rbtree.Update.{
  replace_child, turn_left, turn_right, rbt_rotate_left, rbt_rotate_right, recolor, rebalance_left,
  rebalance_right, fixup_round, fixup_loop, rbt_insert_fixup, read_slot, write_slot, insert_loop,
  cache_min, clear_links, rbt_insert,
}
use kaplarc.Rbtree.Removal.{
  is_black, push_up, close_left, close_right, black_sibling_left, black_sibling_right,
  remove_round_left, remove_round_right, remove_fixup_loop, rbt_remove_fixup, pull_right, lift_min,
  take_successor, detach, rbt_remove,
}

-- Elements ordered by their addresses, all allocated.
abbrev blank : Rbtree
blank = record { nodes = λ q. some (rb_node 7 8 9 10); root = null; cached_min = null }

abbrev tree_of : Outcome Bool → Rbtree
tree_of (ok b t) = t
tree_of _ = blank

insert_all : List Ptr → Rbtree → Rbtree
unfolding load put set_color set_parent set_left set_right is_red replace_child turn_left turn_right
    rbt_rotate_left rbt_rotate_right recolor rebalance_left rebalance_right fixup_round fixup_loop
    rbt_insert_fixup read_slot write_slot insert_loop cache_min clear_links rbt_insert
insert_all [] t = t
insert_all (n ∷ l) t = insert_all l (tree_of (rbt_insert compare 20 n t))

abbrev pointer_of : Outcome Ptr → Ptr
pointer_of (ok p t) = p
pointer_of _ = null

abbrev left_by : Outcome (Unit {0}) → Rbtree
left_by (ok u t) = t
left_by _ = blank

-- The nodes from `p` on, by `rbnode_next`.
visit : ℕ → Ptr → Rbtree → List Ptr
unfolding load leftmost climb_next rbnode_next
visit zero p t = []
visit (suc k) p t =
    let rest = visit k (pointer_of (rbnode_next 20 p t)) t in if p == null then [] else p ∷ rest

visit_back : ℕ → Ptr → Rbtree → List Ptr
unfolding load rightmost climb_prev rbnode_prev
visit_back zero p t = []
visit_back (suc k) p t =
    let rest = visit_back k (pointer_of (rbnode_prev 20 p t)) t in
    if p == null then [] else p ∷ rest

abbrev in_order : Rbtree → List Ptr
in_order t = visit 20 (pointer_of (rbt_min t)) t

removed : Ptr → Rbtree → Rbtree
unfolding load put set_color set_parent set_left set_right is_red replace_child turn_left turn_right
    rbt_rotate_left rbt_rotate_right leftmost climb_next rbnode_next is_black push_up close_left
    close_right black_sibling_left black_sibling_right remove_round_left remove_round_right
    remove_fixup_loop rbt_remove_fixup pull_right lift_min take_successor detach rbt_remove
removed n t = left_by (rbt_remove 20 n t)

five : Rbtree
unfolding insert_all rbt_init
five = insert_all (5 ∷ 2 ∷ 8 ∷ 1 ∷ 3 ∷ []) (rbt_init blank)

insertion_sorts : in_order five ≡ 1 ∷ 2 ∷ 3 ∷ 5 ∷ 8 ∷ []
unfolding five visit rbt_min
insertion_sorts = refl

backwards : visit_back 20 (pointer_of (rbt_max 20 five)) five ≡ 8 ∷ 5 ∷ 3 ∷ 2 ∷ 1 ∷ []
unfolding five visit_back rbt_max max_from rightmost load
backwards = refl

removal_keeps_order : in_order (removed 5 five) ≡ 1 ∷ 2 ∷ 3 ∷ 8 ∷ []
unfolding five removed visit rbt_min
removal_keeps_order = refl

removal_moves_min : in_order (removed 1 five) ≡ 2 ∷ 3 ∷ 5 ∷ 8 ∷ []
unfolding five removed visit rbt_min
removal_moves_min = refl

-- An element that was inserted, and is not the root, is not found.
lost : pointer_of (rbt_find compare 20 3 five) ≡ null
unfolding five rbt_find find_loop load
lost = refl

-- Seven insertions after which the black heights differ: 10 has the red children 4 and 15; 15 has
-- the children 14, red and without children, and 16, black.
seven : Rbtree
unfolding insert_all rbt_init
seven = insert_all (15 ∷ 4 ∷ 16 ∷ 14 ∷ 1 ∷ 5 ∷ 10 ∷ []) (rbt_init blank)

seven_unbalanced :
    (seven.nodes 10 ≡ some (rb_node black null 4 15))
    × (seven.nodes 15 ≡ some (rb_node red 10 14 16))
    × (seven.nodes 14 ≡ some (rb_node red 15 null null))
    × (seven.nodes 16 ≡ some (rb_node black 15 null null))
unfolding seven
seven_unbalanced = (refl, refl, refl, refl)

-- The order of addresses.
by_address : IsOrder compare
by_address = record {
  flip_lt = λ a b h. ground arith;
  flip_gt = λ a b h. ground arith;
  lt_trans = λ a b c h g. ground arith;
}

-- A tree of three nodes: 2 above 1 and 4.
abbrev three : Tree
three = node (node leaf 1 red leaf) 2 black (node leaf 4 red leaf)

abbrev three_nodes : Ptr → Option RbNode
three_nodes q =
    if q == 1
    then some (rb_node red 2 null null)
    else if q == 2
    then some (rb_node black null 1 4)
    else if q == 4
    then some (rb_node red 2 null null)
    else some (rb_node black null null null)

abbrev three_tree : Rbtree
three_tree = record { nodes = three_nodes; root = 2; cached_min = 1 }

three_linked : Represents three_tree [] three
three_linked = record { below = ground arith; above = refl; once = λ q. ground arith }

three_is : IsTree compare three_tree three
three_is = record { linked = three_linked; black_top = refl; sorted = ground arith; cached = refl }

rbt_insert_lem_example : Insertion compare 3 three (rbt_insert compare 4 3 three_tree)
rbt_insert_lem_example =
    rbt_insert_lem compare by_address 3 4 three_tree three three_is (rb_node black null null null)
      (ground arith) refl refl (omega arith)

rbt_find_lem_example : rbt_find compare 4 4 three_tree ≡ ok null three_tree
rbt_find_lem_example = rbt_find_lem compare 4 4 three_tree three by_address three_is (omega arith)

rbnode_next_lem_example : rbnode_next 4 2 three_tree ≡ ok 4 three_tree
rbnode_next_lem_example =
    rbnode_next_lem three_tree three 4 (1 ∷ []) (4 ∷ []) 2 three_linked refl (omega arith)

rbt_rotate_left_lem_example :
    (g : Rbtree) × (rbt_rotate_left 2 three_tree ≡ ok tt g)
    × Represents g [] (node (node (node leaf 1 red leaf) 2 black leaf) 4 red leaf)
    × (g.cached_min ≡ 1)
rbt_rotate_left_lem_example =
    rbt_rotate_left_lem three_tree [] 2 4 black red (node leaf 1 red leaf) leaf leaf three_linked

-- Five nodes: 4 above 2 and 5, 2 above 1 and 3.
abbrev five_nodes : ℕ → ℕ → Ptr → Option RbNode
five_nodes c d q =
    if q == 1
    then some (rb_node d 2 null null)
    else if q == 2
    then some (rb_node red 4 1 3)
    else if q == 3
    then some (rb_node c 2 null null)
    else if q == 4
    then some (rb_node black null 2 5)
    else if q == 5
    then some (rb_node d 4 null null)
    else none

abbrev five_tree : ℕ → ℕ → Rbtree
five_tree c d = record { nodes = five_nodes c d; root = 4; cached_min = 1 }

-- The subtree of 3, of colour `c`, where the other leaves have the colour `d`.
five_linked :
    (c d : ℕ)
    → Represents
        (five_tree c d)
        (from_right (node leaf 1 d leaf) 2 red ∷ from_left 4 black (node leaf 5 d leaf) ∷ [])
        (node leaf 3 c leaf)
five_linked c d = record { below = ground arith; above = ground arith; once = λ q. ground arith }

fixup_round-unbalanced_example :
    (s : Tree) × Yields (fixup_round 3 2 (five_tree black black)) (top s) 1 [] s × ¬ IsBalanced 2 s
fixup_round-unbalanced_example =
    fixup_round-unbalanced (five_tree black black) [] (node leaf 1 black leaf) 2 4
      (node leaf 5 black leaf) leaf 3 leaf 1 2 (five_linked black black)
      (1, refl, (1, refl, (0, refl, refl, refl), (0, refl, refl, refl)), (0, refl, refl, refl)) refl

-- 3 above 2 and 4, 2 above 1: the parent and the node are red, and the uncle is red.
abbrev four_tree : Rbtree
four_tree = record {
  nodes = λ q.
      if q == 1
      then some (rb_node red 2 null null)
      else if q == 2
      then some (rb_node red 3 1 null)
      else if q == 3
      then some (rb_node black null 2 4)
      else if q == 4
      then some (rb_node red 3 null null)
      else none;
  root = 3;
  cached_min = 1;
}

four_linked :
    Represents four_tree
      (from_left 2 red leaf ∷ from_left 3 black (node leaf 4 red leaf) ∷ [])
      (node leaf 1 red leaf)
four_linked = record { below = ground arith; above = ground arith; once = λ q. ground arith }

fixup_round-IsBalanced_example :
    (s : Tree) × Yields (fixup_round 1 2 four_tree) (top s) 1 [] s × IsBalanced 1 s
fixup_round-IsBalanced_example =
    fixup_round-IsBalanced four_tree [] (from_left 2 red leaf)
      (from_left 3 black (node leaf 4 red leaf)) leaf 1 leaf 0 four_linked
      (0, refl, (0, refl, (0, refl, refl, refl), refl), (0, refl, refl, refl))
