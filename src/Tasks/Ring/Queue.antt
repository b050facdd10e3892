-- ===== src/Tasks/Ring/Queue.antt =====
-- src/task_rbuffer.c is a bounded queue: the tasks come out in the order in which they went in.
use kaplarc.Base.{
  ℕ, zero, suc, ◌+◌, ◌^◌, ◌≤◌, ◌<◌, ◌≡◌, ◌≢◌, arith, refl, ap, subst, Bool, true, false, not, List,
  [], ◌∷◌, ◌++◌, u32, sub32, bit_and, ltb, ◌==◌, ne→==_false, eq→==, length,
}
use native.Mathlib.Nat.{pow-le-pow_right}
use kaplarc.Tasks.Ring.{Task, Ring, task_rbuffer_empty, task_rbuffer_full, store, taken}
use kaplarc.Tasks.Ring.Index.{index_ne}

-- `n` tasks from position `pos` on.
unfoldable pub tasks : ℕ → ℕ → Ring → List Task
tasks zero pos rb = []
tasks (suc n) pos rb = rb.buffer (bit_and pos rb.index_mask) ∷ tasks n (u32 (pos + 1)) rb

-- The tasks that wait in the ring, the oldest first.
unfoldable pub queue : Ring → List Task
queue rb = tasks (sub32 rb.writepos rb.readpos) rb.readpos rb

pub record IsRing (rb : Ring) : Type 0 where
  pub k : ℕ
  pub capacity : rb.index_mask + 1 ≡ 2 ^ k
  pub k_lt : k < 32
  pub read_lt : rb.readpos < 2 ^ 32
  pub write_lt : rb.writepos < 2 ^ 32
  pub count : sub32 rb.writepos rb.readpos ≤ rb.index_mask + 1

pub mask_small : (rb : Ring) → IsRing rb → rb.index_mask < 2 ^ 31
mask_small rb v = omega (
  arith,
  v.capacity,
  pow-le-pow_right {n = 2} (omega arith) {i = v.k} {j = 31} (omega (arith, v.k_lt)),
)

pub length-tasks : (n pos : ℕ) (rb : Ring) → length (tasks n pos rb) ≡ n
unfolding tasks
length-tasks zero pos rb = refl
length-tasks (suc n) pos rb = ap suc (length-tasks n (u32 (pos + 1)) rb)

-- What is read does not depend on where the reader stands.
pub tasks-taken : (n pos : ℕ) (rb : Ring) → tasks n pos (taken rb) ≡ tasks n pos rb
unfolding tasks taken
tasks-taken zero pos rb = refl
tasks-taken (suc n) pos rb =
    ap (λ l. rb.buffer (bit_and pos rb.index_mask) ∷ l) (tasks-taken n (u32 (pos + 1)) rb)

-- A stored task stands behind those that were there.
tasks-store :
    (n pos : ℕ) (rb : Ring) (t : Task)
    → IsRing rb
    → pos < 2 ^ 32
    → u32 (pos + n) ≡ rb.writepos
    → n ≤ rb.index_mask
    → tasks (suc n) pos (store rb t) ≡ tasks n pos rb ++ (t ∷ [])
unfolding tasks store
tasks-store zero pos rb t v h at room =
    let here : bit_and pos rb.index_mask ≡ bit_and rb.writepos rb.index_mask =
      ap (λ p. bit_and p rb.index_mask) (omega arith) in
    rw (eq→== (bit_and pos rb.index_mask) (bit_and rb.writepos rb.index_mask) here) refl
tasks-store (suc n) pos rb t v h at room =
    let elsewhere : bit_and pos rb.index_mask ≢ bit_and rb.writepos rb.index_mask =
      subst (λ p. bit_and pos rb.index_mask ≢ bit_and p rb.index_mask) at
        (index_ne v.k rb.index_mask pos (suc n) (omega (arith, v.k_lt)) (omega (arith, v.capacity))
          (omega arith) (omega (arith, v.capacity))) in
    rw (ne→==_false (bit_and pos rb.index_mask) (bit_and rb.writepos rb.index_mask) elsewhere) (
      ap (λ l. rb.buffer (bit_and pos rb.index_mask) ∷ l)
        (tasks-store n (u32 (pos + 1)) rb t v (omega arith) (omega arith) (omega arith)))

abbrev pub is_empty : List Task → Bool
is_empty [] = true
is_empty (t ∷ q) = false

pub queue-store :
    (rb : Ring) (t : Task)
    → IsRing rb
    → sub32 rb.writepos rb.readpos ≤ rb.index_mask
    → queue (store rb t) ≡ queue rb ++ (t ∷ [])
unfolding queue store
queue-store rb t v room =
    let grown : sub32 (u32 (rb.writepos + 1)) rb.readpos ≡ suc (sub32 rb.writepos rb.readpos) =
      omega (arith, mask_small rb v, v.read_lt, v.write_lt) in
    rw grown (
      tasks-store (sub32 rb.writepos rb.readpos) rb.readpos rb t v v.read_lt
        (omega (arith, v.write_lt, v.read_lt)) room)

pub store-IsRing :
    (rb : Ring) (t : Task)
    → IsRing rb
    → sub32 rb.writepos rb.readpos ≤ rb.index_mask
    → IsRing (store rb t)
unfolding store
store-IsRing rb t v room = record {
  k = v.k;
  capacity = v.capacity;
  k_lt = v.k_lt;
  read_lt = v.read_lt;
  write_lt = omega arith;
  count = omega (arith, mask_small rb v, v.read_lt, v.write_lt);
}

pub length-queue : (rb : Ring) → length (queue rb) ≡ sub32 rb.writepos rb.readpos
unfolding queue
length-queue rb = length-tasks (sub32 rb.writepos rb.readpos) rb.readpos rb

pub empty_lem : (rb : Ring) → IsRing rb → task_rbuffer_empty rb ≡ is_empty (queue rb)
unfolding task_rbuffer_empty
empty_lem rb v = by_queue (queue rb) (length-queue rb)
  where
    by_queue :
        (q : List Task)
        → length q ≡ sub32 rb.writepos rb.readpos
        → (rb.readpos == rb.writepos) ≡ is_empty q
    by_queue [] e = eq→== rb.readpos rb.writepos (omega (arith, v.read_lt, v.write_lt))
    by_queue (t ∷ q) e = ne→==_false rb.readpos rb.writepos (omega (arith, v.read_lt, v.write_lt))

pub full_lem :
    (rb : Ring) → task_rbuffer_full rb ≡ not (ltb (length (queue rb)) (rb.index_mask + 1))
unfolding task_rbuffer_full
full_lem rb = rw (length-queue rb) (ground arith)
