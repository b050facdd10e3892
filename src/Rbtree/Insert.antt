-- ===== src/Rbtree/Insert.antt =====
-- `rbt_insert` of src/rbtree.c puts a node in its place of the order, and keeps the links.
use kaplarc.Base.{
  ℕ, ◌+◌, ◌<◌, ◌≤◌, ◌≡◌, ◌≢◌, refl, ap, sym, subst, ◌∙◌, Option, none, some, [], ◌∷◌, ◌==◌, Bool,
  true, false, arith, if◌then◌else◌, length,
}
use kaplarc.Rbtree.Nodes.{
  Ptr, null, red, black, RbNode, rb_node, Rbtree, Outcome, ok, Cmd, Compare, by_sign, pure, put,
  set_root, ◌>>◌, and_then,
}
use kaplarc.Rbtree.Update.{
  at_root, insert_loop, cache_min, clear_links, rbt_insert_fixup, rbt_insert,
}
use kaplarc.Rbtree.Shape.{
  Tree, leaf, node, from_left, from_right, Context, top, size, occurs, Represents,
}
use kaplarc.Rbtree.Find.{not_null, load-ok}
use kaplarc.Rbtree.Writes.{put_self, put-other}
use kaplarc.Rbtree.Focus.{Yields, bind, yield}
use kaplarc.Rbtree.Repair.{blacken, repair, IsRooted}
use kaplarc.Rbtree.Fixup.{rbt_insert_fixup_lem}
use kaplarc.Rbtree.Descent.{place_for, Descended, Represents-frame, once_leaf, insert_loop_lem}

-- The top of the tree is black.
abbrev pub IsBlackTop : Tree → Type 0
IsBlackTop leaf = Unit
IsBlackTop (node l a c r) = c ≡ black

-- The least of the cached minimum and a new node.
abbrev pub least_of : Compare → Ptr → Ptr → Ptr
least_of compare n least = if least == null then n else by_sign (compare n least) n least least

-- The context of a place has a black top, where the tree has.
abbrev IsRootedAt : Context → Tree → Type 0
IsRootedAt [] s = IsBlackTop s
IsRootedAt (f ∷ k) s = IsRooted (f ∷ k)

rooted_left :
    (k : Context) (l : Tree) (a c : ℕ) (r : Tree)
    → IsRootedAt k (node l a c r)
    → IsRootedAt (from_left a c r ∷ k) l
rooted_left [] l a c r h = h
rooted_left (f ∷ k) l a c r h = h

rooted_right :
    (k : Context) (l : Tree) (a c : ℕ) (r : Tree)
    → IsRootedAt k (node l a c r)
    → IsRootedAt (from_right l a c ∷ k) r
rooted_right [] l a c r h = h
rooted_right (f ∷ k) l a c r h = h

IsRooted-leaf : (k : Context) → IsRootedAt k leaf → IsRooted k
IsRooted-leaf [] h = tt
IsRooted-leaf (f ∷ k) h = h

place_for-IsRooted :
    (compare : Compare) (n : Ptr) (s : Tree) (k k' : Context)
    → IsRootedAt k s
    → place_for compare n s k ≡ some k'
    → IsRooted k'
place_for-IsRooted compare n leaf k k' h e = let i : k ≡ k' = cc in rw (← i) (IsRooted-leaf k h)
place_for-IsRooted compare n (node l a c r) k k' h e = ground (
  arith,
  place_for-IsRooted compare n l (from_left a c r ∷ k) k' (rooted_left k l a c r h),
  place_for-IsRooted compare n r (from_right l a c ∷ k) k' (rooted_right k l a c r h),
)

-- No more ancestors than nodes.
place_for-length :
    (compare : Compare) (n : Ptr) (s : Tree) (k k' : Context)
    → place_for compare n s k ≡ some k'
    → length k' ≤ length k + size s
place_for-length compare n leaf k k' e = let i : k ≡ k' = cc in omega (arith, ap length i)
place_for-length compare n (node l a c r) k k' e = ground (
  arith,
  place_for-length compare n l (from_left a c r ∷ k) k',
  place_for-length compare n r (from_right l a c ∷ k) k',
)

-- The first comparison is made with the root, where there is one.
abbrev start : Compare → ℕ → Ptr → Ptr → Cmd Bool
start compare fuel n root =
    if root == null then (do set_root n; pure true) else insert_loop compare fuel n at_root

module _ (compare : Compare) (n : Ptr) (n_some : n ≢ null) where
  start_lem :
      (fuel : ℕ) (t : Rbtree) (w : Tree)
      → t.nodes n ≡ some (rb_node red null null null)
      → occurs n w ≡ 0
      → Represents t [] w
      → size w < fuel
      → Descended (start compare fuel n (top w) t) n t.cached_min w (place_for compare n w [])
  start_lem fuel t leaf held fresh rep enough = record {
    after = record t { root = n };
    run = refl;
    rep = record {
      below = (n_some, held, tt, tt);
      above = refl;
      once = once_leaf n [] rep.once refl;
    };
    same_min = refl;
  }
  start_lem fuel t (node l a c r) held fresh rep enough = rw (not_null rep.below.0) (
      insert_loop_lem compare n t.cached_min n_some fuel t [] (node l a c r) refl held
        (omega (arith, fresh)) rep enough)

cache_min_lem :
    (compare : Compare) (n : Ptr) (t : Rbtree)
    → cache_min compare n t ≡ ok tt (record t { cached_min = least_of compare n t.cached_min })
unfolding cache_min
cache_min_lem compare n t = ground arith

-- `rbt_insert` after the descent.
abbrev finish : Compare → ℕ → Ptr → Bool → Cmd Bool
finish compare fuel n fresh =
    if fresh then (do cache_min compare n; rbt_insert_fixup fuel n; pure true) else pure false

-- What the insertion ends with, for the place that the comparisons lead to.
abbrev pub Inserted : Compare → Outcome Bool → Ptr → Ptr → Tree → Option Context → Type 0
Inserted compare r n least w none = Yields r false least [] w
Inserted compare r n least w (some k) =
    Yields r true (least_of compare n least) [] (blacken (repair k (node leaf n red leaf)))

finish_lem :
    (compare : Compare) (n fuel : ℕ) (w : Tree) (least : Ptr) (o : Option Context)
    (r : Outcome Bool)
    → ((k : Context) → o ≡ some k → IsRooted k × (length k < fuel))
    → Descended r n least w o
    → Inserted compare (and_then r (finish compare fuel n)) n least w o
finish_lem compare n fuel w least none r place y = bind _ y (λ g rep m. yield g rep m)
finish_lem compare n fuel w least (some k) r place y = bind _ y λ g rep m.
    let (rooted, enough) = place k refl in
    let g1 : Rbtree = record g { cached_min = least_of compare n g.cached_min } in
    let rep1 : Represents g1 k (node leaf n red leaf) =
      Represents-frame g g1 k (node leaf n red leaf) refl rep (λ q o. refl) in
    rw (cache_min_lem compare n g) (
      bind _ (rbt_insert_fixup_lem k fuel g1 leaf n red leaf rooted enough rep1)
        λ g2 rep2 m2. yield g2 rep2 (m2 ∙ ap (least_of compare n) m))

module _ (compare : Compare) (n fuel : ℕ) (t : Rbtree) (w : Tree) (x : RbNode) where
  pub insert_links :
      n ≢ null
      → t.nodes n ≡ some x
      → occurs n w ≡ 0
      → Represents t [] w
      → IsBlackTop w
      → size w < fuel
      → Inserted compare (rbt_insert compare fuel n t) n t.cached_min w (place_for compare n w [])
  unfolding rbt_insert clear_links
  insert_links n_some held fresh rep black_top enough =
      let g : Rbtree = record t { nodes = put t.nodes n (rb_node red null null null) } in
      let out : (q : Ptr) → 1 ≤ occurs q w + 0 → q ≢ n =
        λ q o i. omega (arith, o, fresh, ap (λ y. occurs y w) i) in
      let rep' : Represents g [] w =
        Represents-frame t g [] w refl rep (λ q o. put-other t.nodes n _ q (out q o)) in
      let y = start_lem compare n n_some fuel g w (put_self t.nodes n _) fresh rep' enough in
      let fits : (k : Context)
          → place_for compare n w [] ≡ some k
          → IsRooted k × (length k < fuel) =
        λ k e. (
          place_for-IsRooted compare n w [] k black_top e,
          omega (arith, place_for-length compare n w [] k e),
        ) in
      rw (load-ok {t = t} n_some held) (
        subst
          (λ p.
            Inserted compare (and_then (start compare fuel n p g) (finish compare fuel n)) n
              t.cached_min w (place_for compare n w []))
          (sym rep'.above) (finish_lem compare n fuel w t.cached_min _ _ fits y))
