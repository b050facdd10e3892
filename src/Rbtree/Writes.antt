-- ===== src/Rbtree/Writes.antt =====
-- What one write of a field of src/rbtree.c does to the store.
use kaplarc.Base.{ℕ, ◌≡◌, ◌≢◌, Option, some, arith}
use kaplarc.Rbtree.Nodes.{
  Ptr, null, RbNode, Rbtree, ok, put, set_color, set_parent, set_left, set_right,
}
use kaplarc.Rbtree.Find.{load-ok}

pub put_self : (h : Ptr → Option RbNode) (p : Ptr) (x : RbNode) → put h p x p ≡ some x
unfolding put
put_self h p x = ground arith

pub put-other :
    (h : Ptr → Option RbNode) (p : Ptr) (x : RbNode) (q : Ptr) → q ≢ p → put h p x q ≡ h q
unfolding put
put-other h p x q e = ground arith

module _ (t : Rbtree) {p : Ptr} {x : RbNode} (e : p ≢ null) (h : t.nodes p ≡ some x) where
  pub set_color-ok :
      (c : ℕ)
      → set_color p c t ≡ ok tt (record t { nodes = put t.nodes p (record x { color = c }) })
  unfolding set_color
  set_color-ok c = rw (load-ok {t = t} e h)

  pub set_parent-ok :
      (q : Ptr)
      → set_parent p q t ≡ ok tt (record t { nodes = put t.nodes p (record x { parent = q }) })
  unfolding set_parent
  set_parent-ok q = rw (load-ok {t = t} e h)

  pub set_left-ok :
      (q : Ptr)
      → set_left p q t ≡ ok tt (record t { nodes = put t.nodes p (record x { left = q }) })
  unfolding set_left
  set_left-ok q = rw (load-ok {t = t} e h)

  pub set_right-ok :
      (q : Ptr)
      → set_right p q t ≡ ok tt (record t { nodes = put t.nodes p (record x { right = q }) })
  unfolding set_right
  set_right-ok q = rw (load-ok {t = t} e h)
