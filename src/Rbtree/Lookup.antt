-- ===== src/Rbtree/Lookup.antt =====
-- `rbt_find`, `rbt_min` and `rbt_init` of src/rbtree.c, on the trees that `rbt_insert` makes.
use kaplarc.Base.{ℕ, ◌<◌, ◌≡◌, refl, arith, ap}
use kaplarc.Rbtree.Nodes.{Rbtree, Compare, ok, rbt_init}
use kaplarc.Rbtree.Search.{rbt_find, rbt_min}
use kaplarc.Rbtree.Shape.{Tree, leaf, size, inorder}
use kaplarc.Rbtree.Find.{IsOrder, root_if_equal, find_ordered}
use kaplarc.Rbtree.Walk.{first}
use kaplarc.Rbtree.Sorted.{IsSorted-IsOrdered}
use kaplarc.Rbtree.Insertion.{IsTree}

-- A new tree is empty.
pub rbt_init-IsTree : (compare : Compare) (t : Rbtree) → IsTree compare (rbt_init t) leaf
unfolding rbt_init
rbt_init-IsTree compare t = record {
  linked = record { below = tt; above = refl; once = λ q. omega arith };
  black_top = tt;
  sorted = tt;
  cached = refl;
}

-- On a tree as the insertion makes it, with more fuel than nodes, `rbt_find` returns the root if
-- the root is equal to the element, and NULL in every other case, also where an equal node stands
-- below the root.
pub rbt_find_lem :
    (compare : Compare) (n fuel : ℕ) (t : Rbtree) (w : Tree)
    → IsOrder compare
    → IsTree compare t w
    → size w < fuel
    → rbt_find compare fuel n t ≡ ok (root_if_equal compare n w) t
rbt_find_lem compare n fuel t w order is enough =
    find_ordered compare n fuel t w order is.linked (IsSorted-IsOrdered compare w is.sorted) enough

-- On a tree as the insertion makes it, `rbt_min` is the first node in order.
pub rbt_min_lem :
    (compare : Compare) (t : Rbtree) (w : Tree)
    → IsTree compare t w
    → rbt_min t ≡ ok (first (inorder w)) t
unfolding rbt_min
rbt_min_lem compare t w is = ap (λ p. ok p t) is.cached
