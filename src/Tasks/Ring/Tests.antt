-- ===== src/Tasks/Ring/Tests.antt =====
-- Runs of src/task_rbuffer.c: a ring whose positions wrap, and one that is filled and read.
use kaplarc.Base.{ℕ, ◌+◌, ◌≤◌, ◌≡◌, arith, refl, true, false, some, [], ◌∷◌, ◌++◌, length}
use kaplarc.Tasks.Ring.{
  Task, Ring, is_power_of_two, task_rbuffer_create, task_rbuffer_full, task_rbuffer_empty, Push,
  store, task_rbuffer_push, Run, next_task, taken, task_rbuffer_run_one,
}
use kaplarc.Tasks.Ring.Queue.{queue, IsRing}
use kaplarc.Tasks.Ring.Pushing.{pushed, push_spec, task_rbuffer_push_lem}
use kaplarc.Tasks.Ring.Fifo.{Trace, Step, Reach, tasks_run_in_order}

abbrev first_task : Task
first_task = record { fp = 100; arg = 1 }

abbrev second_task : Task
second_task = record { fp = 200; arg = 2 }

abbrev memory : ℕ → Task
memory = λ _. first_task

-- One task of two waits, at the last position; the next is stored at position 0.
abbrev wrapping : Ring
wrapping = record {
  active = true;
  index_mask = 1;
  readpos = 0xFFFFFFFF;
  writepos = 0;
  buffer = memory;
}

wrapping-IsRing : IsRing wrapping
wrapping-IsRing = record {
  k = 1;
  capacity = refl;
  k_lt = omega arith;
  read_lt = omega arith;
  write_lt = omega arith;
  count = omega arith;
}

task_rbuffer_push_lem_example :
    pushed (task_rbuffer_push wrapping second_task) ≡ push_spec true 2 (queue wrapping) second_task
task_rbuffer_push_lem_example = task_rbuffer_push_lem wrapping second_task wrapping-IsRing

-- A ring for two tasks: one is stored, another is stored, the first is run.
abbrev fresh : Ring
fresh = record { active = true; index_mask = 1; readpos = 0; writepos = 0; buffer = memory }

fresh_lem : task_rbuffer_create memory 2 ≡ some fresh
unfolding task_rbuffer_create is_power_of_two
fresh_lem = refl

abbrev one_stored : Ring
one_stored = store fresh first_task

one_stored_lem : task_rbuffer_push fresh first_task ≡ Push.stored one_stored true
unfolding task_rbuffer_push task_rbuffer_full task_rbuffer_empty store
one_stored_lem = refl

abbrev two_stored : Ring
two_stored = store one_stored second_task

two_stored_lem : task_rbuffer_push one_stored second_task ≡ Push.stored two_stored false
unfolding task_rbuffer_push task_rbuffer_full task_rbuffer_empty store
two_stored_lem = refl

first_run_lem : task_rbuffer_run_one two_stored ≡ Run.runs first_task (taken two_stored) true
unfolding task_rbuffer_run_one task_rbuffer_full task_rbuffer_empty store next_task taken
first_run_lem = refl

abbrev all_done : Trace
all_done = record {
  rb = taken two_stored;
  accepted = first_task ∷ second_task ∷ [];
  ran = first_task ∷ [];
}

all_done-Reach : Reach all_done
all_done-Reach =
    Reach.step
      (Reach.step
        (Reach.step (Reach.create memory 2 fresh (omega arith) fresh_lem)
          (Step.push first_task one_stored true one_stored_lem))
        (Step.push second_task two_stored false two_stored_lem))
      (Step.run first_task (taken two_stored) true first_run_lem)

tasks_run_in_order_example :
    (all_done.accepted ≡ all_done.ran ++ queue all_done.rb)
    × (length (queue all_done.rb) ≤ all_done.rb.index_mask + 1)
tasks_run_in_order_example = tasks_run_in_order all_done all_done-Reach
