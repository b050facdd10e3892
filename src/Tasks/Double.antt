-- ===== src/Tasks/Double.antt =====
-- src/task_dbuffer.c. As for the ring buffer, one function for each run under the lock.
pub mod Queue
mod Tests
use kaplarc.Base.{
  ℕ, zero, suc, ◌+◌, ◌-◌, Bool, true, false, not, ◌&&◌, List, [], ◌∷◌, u32, leb, ◌==◌,
  if◌then◌else◌,
}
use kaplarc.Tasks.Ring.{Task}

-- `struct task_dbuffer` without the lock and the condition variable. `count` and `buffer` are
-- arrays of two, read from their index.
pub record Double : Type 0 where
  pub active : Bool
  pub write_idx : ℕ
  pub max_tasks : ℕ
  pub count : ℕ → ℕ
  pub buffer : ℕ → ℕ → Task

-- The memory of the buffers is whatever `malloc` gives.
unfoldable pub task_dbuffer_create : (ℕ → ℕ → Task) → ℕ → Double
task_dbuffer_create memory max_tasks = record {
  active = true;
  write_idx = 0;
  max_tasks = max_tasks;
  count = λ _. 0;
  buffer = memory;
}

-- How a run of `task_dbuffer_add` ends: true, false, or waiting on `buffer_full` with the index that
-- it read before.
pub data Add : Type 0 where
  added : Double → Add
  refused : Add
  waits : ℕ → Add

-- *task = …; db->count[idx] += 1
unfoldable pub put_task : Double → ℕ → ℕ → Task → Double
put_task db idx count t = record db {
  buffer = λ i j. if i == idx && j == count then t else db.buffer i j;
  count = λ i. if i == idx then u32 (db.count i + 1) else db.count i;
}

-- The loop's test with `idx` at hand: on entry, and after each wake-up.
unfoldable pub add_at : ℕ → Double → Task → Add
add_at idx db t =
    let count = db.count idx in
    if leb db.max_tasks count && db.active
    then waits idx
    else if not db.active
    then refused
    else added (put_task db idx count t)

unfoldable pub task_dbuffer_add : Double → Task → Add
task_dbuffer_add db t = add_at db.write_idx db t

-- The part of `task_dbuffer_swap_and_run` under the lock: the buffer and the count that are run
-- after it, the new state, and whether the waiting threads are woken.
unfoldable pub swap : Double → ℕ × ℕ × Double × Bool
swap db =
    let idx = db.write_idx in
    let count = db.count idx in
    let other = 1 - db.write_idx in
    (
      idx,
      count,
      record db { write_idx = other; count = λ i. if i == other then 0 else db.count i },
      leb db.max_tasks count,
    )

-- `while(count > 0)`: the tasks that are run, from position `at` of buffer `idx` on.
unfoldable pub run_tasks : ℕ → ℕ → ℕ → Double → List Task
run_tasks idx at zero db = []
run_tasks idx at (suc count) db = db.buffer idx at ∷ run_tasks idx (at + 1) count db

unfoldable pub task_dbuffer_set_inactive : Double → Double
task_dbuffer_set_inactive db = record db { active = false }
