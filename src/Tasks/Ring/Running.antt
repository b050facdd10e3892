-- ===== src/Tasks/Ring/Running.antt =====
-- `task_rbuffer_run_one` of src/task_rbuffer.c takes from the front of a bounded queue.
use kaplarc.Base.{
  ℕ, suc, ◌+◌, ◌-◌, ◌≡◌, ◌≢◌, arith, refl, sym, ◌∙◌, ap, Bool, true, false, not, List, [], ◌∷◌, u32,
  sub32, ltb, if◌then◌else◌, length,
}
use kaplarc.Tasks.Ring.{Task, Ring, task_rbuffer_empty, Run, next_task, taken, task_rbuffer_run_one}
use kaplarc.Tasks.Ring.Queue.{
  tasks, queue, is_empty, IsRing, length-queue, empty_lem, full_lem, mask_small, tasks-taken,
}

-- What a run of the worker says of the queue.
pub data Ran : Type 0 where
  runs : Task → List Task → Bool → Ran
  stopped sleeps : Ran

abbrev pub ran : Run → Ran
ran (Run.runs t rb signalled) = Ran.runs t (queue rb) signalled
ran Run.stopped = Ran.stopped
ran Run.sleeps = Ran.sleeps

abbrev pub run_spec : Bool → ℕ → List Task → Ran
run_spec false capacity q = Ran.stopped
run_spec true capacity [] = Ran.sleeps
run_spec true capacity (t ∷ q) = Ran.runs t q (not (ltb (suc (length q)) capacity))

-- The oldest task, and the tasks behind it.
pub queue-taken :
    (rb : Ring)
    → IsRing rb
    → sub32 rb.writepos rb.readpos ≢ 0
    → queue rb ≡ next_task rb ∷ queue (taken rb)
unfolding queue next_task taken tasks
queue-taken rb v some_left =
    let n = sub32 rb.writepos rb.readpos - 1 in
    let next = u32 (rb.readpos + 1) in
    let before : sub32 rb.writepos rb.readpos ≡ suc n = omega arith in
    let after : sub32 rb.writepos next ≡ n = omega (arith, v.read_lt, v.write_lt) in
    ap (λ c. tasks c rb.readpos rb) before
    ∙ ap (λ l. next_task rb ∷ l)
        (sym (tasks-taken n next rb) ∙ ap (λ c. tasks c next (taken rb)) (sym after))

pub taken-IsRing : (rb : Ring) → IsRing rb → task_rbuffer_empty rb ≡ false → IsRing (taken rb)
unfolding taken task_rbuffer_empty
taken-IsRing rb v h = record {
  k = v.k;
  capacity = v.capacity;
  k_lt = v.k_lt;
  read_lt = omega arith;
  write_lt = v.write_lt;
  count = ground (arith, mask_small rb v, v.read_lt, v.write_lt, v.count);
}

-- For a ring in order, a run of `task_rbuffer_run_one` from taking the lock takes the oldest task
-- of the bounded queue: stopped when the ring is not active, asleep when it is empty, and with a
-- signal exactly when the ring was full.
pub task_rbuffer_run_one_lem :
    (rb : Ring)
    → IsRing rb
    → ran (task_rbuffer_run_one rb) ≡ run_spec rb.active (rb.index_mask + 1) (queue rb)
unfolding task_rbuffer_run_one
task_rbuffer_run_one_lem rb v =
    rw (full_lem rb, empty_lem rb v) (by_queue rb.active (queue rb) refl)
  where
    by_queue :
        (a : Bool) (q : List Task)
        → queue rb ≡ q
        → ran (
            if not a
            then Run.stopped
            else if is_empty q
            then Run.sleeps
            else Run.runs (next_task rb) (taken rb) (not (ltb (length q) (rb.index_mask + 1))))
          ≡ run_spec a (rb.index_mask + 1) q
    by_queue false q e = refl
    by_queue true [] e = refl
    by_queue true (t ∷ q) e =
        let some_left : sub32 rb.writepos rb.readpos ≢ 0 =
          omega (arith, sym (length-queue rb) ∙ ap length e) in
        let same = sym (queue-taken rb v some_left) ∙ e in cc
