-- ===== src/Tasks/Ring.antt =====
-- src/task_rbuffer.c. A thread's call runs under the lock, from where it takes the lock or wakes up
-- to where it releases the lock or waits: one function for each such run.
pub mod Power
pub mod Index
pub mod Queue
pub mod Pushing
pub mod Running
pub mod Fifo
mod Tests
use kaplarc.Base.{
  ℕ, ◌+◌, ◌-◌, ◌%◌, ◌^◌, Bool, true, false, not, ◌&&◌, Option, none, some, List, [], ◌∷◌, u32,
  sub32, bit_and, ltb, ◌==◌, if◌then◌else◌,
}

-- `struct task`: a function and its argument, as addresses.
pub record Task : Type 0 where
  pub fp : ℕ
  pub arg : ℕ

-- `struct task_rbuffer` without the lock and the condition variables. The array is read from its
-- index.
pub record Ring : Type 0 where
  pub active : Bool
  pub index_mask : ℕ
  pub readpos : ℕ
  pub writepos : ℕ
  pub buffer : ℕ → Task

-- IS_POWER_OF_TWO
unfoldable pub is_power_of_two : ℕ → Bool
is_power_of_two x = not (x == 0) && bit_and x (x - 1) == 0

-- `none` is the failed assertion. The memory of the array is whatever `malloc` gives.
unfoldable pub task_rbuffer_create : (ℕ → Task) → ℕ → Option Ring
unfolding is_power_of_two
task_rbuffer_create memory max_tasks =
    if is_power_of_two max_tasks
    then some (record {
      active = true;
      index_mask = max_tasks - 1;
      readpos = 0;
      writepos = 0;
      buffer = memory;
    })
    else none

unfoldable pub task_rbuffer_empty : Ring → Bool
task_rbuffer_empty rb = rb.readpos == rb.writepos

unfoldable pub task_rbuffer_full : Ring → Bool
task_rbuffer_full rb = ltb rb.index_mask (sub32 rb.writepos rb.readpos)

-- How a run of `task_rbuffer_push` ends: true with the ring it leaves and whether `rb_empty` was
-- signalled, false, or waiting on `rb_full`.
pub data Push : Type 0 where
  stored : Ring → Bool → Push
  refused waits : Push

-- task = &rb->buffer[rb->writepos++ & rb->index_mask]; *task = …
unfoldable pub store : Ring → Task → Ring
store rb t = record rb {
  buffer = λ j. if j == bit_and rb.writepos rb.index_mask then t else rb.buffer j;
  writepos = u32 (rb.writepos + 1);
}

unfoldable pub task_rbuffer_push : Ring → Task → Push
task_rbuffer_push rb t =
    if not rb.active
    then refused
    else if task_rbuffer_full rb
    then waits
    else stored (store rb t) (task_rbuffer_empty rb)

-- From the wake-up of `condvar_wait` on.
unfoldable pub push_woken : Ring → Task → Push
push_woken rb t =
    if task_rbuffer_full rb && rb.active
    then waits
    else if not rb.active
    then refused
    else stored (store rb t) false

-- How a run of `task_rbuffer_run_one` ends: with the task that it calls when it has released the
-- lock, the ring it leaves and whether `rb_full` was signalled, with false, or waiting on `rb_empty`.
pub data Run : Type 0 where
  runs : Task → Ring → Bool → Run
  stopped sleeps : Run

-- task = &rb->buffer[rb->readpos++ & rb->index_mask]
unfoldable pub next_task : Ring → Task
next_task rb = rb.buffer (bit_and rb.readpos rb.index_mask)

unfoldable pub taken : Ring → Ring
taken rb = record rb { readpos = u32 (rb.readpos + 1) }

unfoldable pub task_rbuffer_run_one : Ring → Run
task_rbuffer_run_one rb =
    if not rb.active
    then stopped
    else if task_rbuffer_empty rb
    then sleeps
    else runs (next_task rb) (taken rb) (task_rbuffer_full rb)

unfoldable pub run_one_woken : Ring → Run
run_one_woken rb =
    if task_rbuffer_empty rb && rb.active
    then sleeps
    else if not rb.active
    then stopped
    else runs (next_task rb) (taken rb) false

-- Both condition variables are broadcast.
unfoldable pub task_rbuffer_set_inactive : Ring → Ring
task_rbuffer_set_inactive rb = record rb { active = false }
