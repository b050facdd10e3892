-- ===== src/Rbtree/Rotate.antt =====
-- The rotations of src/rbtree.c.
use kaplarc.Base.{ℕ, ◌≡◌, ◌≢◌, ◌⊎◌, inl, inr, refl, sym, ◌∙◌, some, arith, ◌==◌, if◌then◌else◌}
use kaplarc.Rbtree.Nodes.{Ptr, null, RbNode, rb_node, Rbtree, Cmd, ok, pure, put, set_parent}
use kaplarc.Rbtree.Update.{turn_left, turn_right}
use kaplarc.Rbtree.Find.{not_null, load-ok}
use kaplarc.Rbtree.Writes.{put_self, put-other, set_parent-ok, set_left-ok, set_right-ok}

-- The store after a rotation at `a`, whose child `c` rises and hands `d` over.
pub record Turned (t g : Rbtree) (a c d : Ptr) (x y : RbNode) : Type 0 where
  pub low : g.nodes a ≡ some x
  pub high : g.nodes c ≡ some y
  pub handed :
      (z : RbNode) → d ≢ null → t.nodes d ≡ some z → g.nodes d ≡ some (record z { parent = a })
  pub others : (q : Ptr) → q ≢ a → q ≢ c → (d ≢ null → q ≢ d) → g.nodes q ≡ t.nodes q
  pub same_root : g.root ≡ t.root
  pub same_min : g.cached_min ≡ t.cached_min

-- `if(a->right != NULL) a->right->parent = a;`, and its mirror image.
abbrev adopt : Ptr → Ptr → Cmd (Unit {0})
adopt d a = if d == null then pure tt else set_parent d a

module _ (t : Rbtree) (a c d : Ptr) (a_some : a ≢ null) (c_some : c ≢ null) (apart : a ≢ c)
    (d_a : d ≢ a) (d_c : d ≢ c) where
  hand_over :
      (u : Rbtree) (x y : RbNode)
      → u.nodes a ≡ some x
      → u.nodes c ≡ some y
      → ((q : Ptr) → q ≢ a → q ≢ c → u.nodes q ≡ t.nodes q)
      → u.root ≡ t.root
      → u.cached_min ≡ t.cached_min
      → ((d ≡ null) ⊎ ((z : RbNode) × (d ≢ null) × (t.nodes d ≡ some z)))
      → (g : Rbtree) × (adopt d a u ≡ ok tt g) × Turned t g a c d x y
  hand_over u x y hx hy same r m (inl none_below) = (
    u,
    rw none_below refl,
    record {
      low = hx;
      high = hy;
      handed = λ z f. absurd (f none_below);
      others = λ q i j k. same q i j;
      same_root = r;
      same_min = m;
    },
  )
  hand_over u x y hx hy same r m (inr (z, d_some, hz)) =
      let h = put u.nodes d (record z { parent = a }) in
      (
        record u { nodes = h },
        rw (not_null d_some) (set_parent-ok u d_some (same d d_a d_c ∙ hz) a),
        record {
          low = put-other u.nodes d _ a (λ i. d_a (sym i)) ∙ hx;
          high = put-other u.nodes d _ c (λ i. d_c (sym i)) ∙ hy;
          handed = λ z' f hz'. put_self u.nodes d _ ∙ ground (arith, hz, hz');
          others = λ q i j k. put-other u.nodes d _ q (k d_some) ∙ same q i j;
          same_root = r;
          same_min = m;
        },
      )

  module _ (ca cc p b e : ℕ) where
    pub turn_left_lem :
        t.nodes a ≡ some (rb_node ca p b c)
        → t.nodes c ≡ some (rb_node cc a d e)
        → ((d ≡ null) ⊎ ((z : RbNode) × (d ≢ null) × (t.nodes d ≡ some z)))
        → (g : Rbtree) × (turn_left a c t ≡ ok tt g)
          × Turned t g a c d (rb_node ca c b d) (rb_node cc p a e)
    unfolding turn_left
    turn_left_lem ha hc hd =
        let h1 = put t.nodes c (rb_node cc p d e) in
        let h2 = put h1 a (rb_node ca c b c) in
        let h3 = put h2 a (rb_node ca c b d) in
        let h4 = put h3 c (rb_node cc p a e) in
        let a1 : h1 a ≡ some (rb_node ca p b c) = put-other t.nodes c _ a apart ∙ ha in
        let c2 : h2 c ≡ some (rb_node cc p d e) =
          put-other h1 a _ c (λ i. apart (sym i)) ∙ put_self t.nodes c _ in
        let a2 : h2 a ≡ some (rb_node ca c b c) = put_self h1 a _ in
        let c3 : h3 c ≡ some (rb_node cc p d e) = put-other h2 a _ c (λ i. apart (sym i)) ∙ c2 in
        let a4 : h4 a ≡ some (rb_node ca c b d) = put-other h3 c _ a apart ∙ put_self h2 a _ in
        let same : (q : Ptr) → q ≢ a → q ≢ c → h4 q ≡ t.nodes q = λ q i j.
          put-other h3 c _ q j
          ∙ put-other h2 a _ q i
          ∙ put-other h1 a _ q i
          ∙ put-other t.nodes c _ q j in
        let (g, run, turned) =
          hand_over (record t { nodes = h4 }) (rb_node ca c b d) (rb_node cc p a e) a4
            (put_self h3 c _) same refl refl hd in
        (
          g,
          rw
              (
                load-ok {t = t} a_some ha,
                set_parent-ok t c_some hc p,
                set_parent-ok (record t { nodes = h1 }) a_some a1 c,
                load-ok {t = record t { nodes = h2 }} c_some c2,
                set_right-ok (record t { nodes = h2 }) a_some a2 d,
                set_left-ok (record t { nodes = h3 }) c_some c3 a,
                load-ok {t = record t { nodes = h4 }} a_some a4,
              )
              run,
          turned,
        )

    pub turn_right_lem :
        t.nodes a ≡ some (rb_node ca p c b)
        → t.nodes c ≡ some (rb_node cc a e d)
        → ((d ≡ null) ⊎ ((z : RbNode) × (d ≢ null) × (t.nodes d ≡ some z)))
        → (g : Rbtree) × (turn_right a c t ≡ ok tt g)
          × Turned t g a c d (rb_node ca c d b) (rb_node cc p e a)
    unfolding turn_right
    turn_right_lem ha hc hd =
        let h1 = put t.nodes c (rb_node cc p e d) in
        let h2 = put h1 a (rb_node ca c c b) in
        let h3 = put h2 a (rb_node ca c d b) in
        let h4 = put h3 c (rb_node cc p e a) in
        let a1 : h1 a ≡ some (rb_node ca p c b) = put-other t.nodes c _ a apart ∙ ha in
        let c2 : h2 c ≡ some (rb_node cc p e d) =
          put-other h1 a _ c (λ i. apart (sym i)) ∙ put_self t.nodes c _ in
        let a2 : h2 a ≡ some (rb_node ca c c b) = put_self h1 a _ in
        let c3 : h3 c ≡ some (rb_node cc p e d) = put-other h2 a _ c (λ i. apart (sym i)) ∙ c2 in
        let a4 : h4 a ≡ some (rb_node ca c d b) = put-other h3 c _ a apart ∙ put_self h2 a _ in
        let same : (q : Ptr) → q ≢ a → q ≢ c → h4 q ≡ t.nodes q = λ q i j.
          put-other h3 c _ q j
          ∙ put-other h2 a _ q i
          ∙ put-other h1 a _ q i
          ∙ put-other t.nodes c _ q j in
        let (g, run, turned) =
          hand_over (record t { nodes = h4 }) (rb_node ca c d b) (rb_node cc p e a) a4
            (put_self h3 c _) same refl refl hd in
        (
          g,
          rw
              (
                load-ok {t = t} a_some ha,
                set_parent-ok t c_some hc p,
                set_parent-ok (record t { nodes = h1 }) a_some a1 c,
                load-ok {t = record t { nodes = h2 }} c_some c2,
                set_left-ok (record t { nodes = h2 }) a_some a2 d,
                set_right-ok (record t { nodes = h3 }) c_some c3 a,
                load-ok {t = record t { nodes = h4 }} a_some a4,
              )
              run,
          turned,
        )
