-- ===== src/Tasks/Double/Tests.antt =====
-- Runs of src/task_dbuffer.c with buffers of two tasks.
use kaplarc.Base.{◌≡◌, arith, refl, true, ◌==◌, if◌then◌else◌}
use kaplarc.Tasks.Ring.{Task}
use kaplarc.Tasks.Double.{Double, waits, add_at, task_dbuffer_add}
use kaplarc.Tasks.Double.Queue.{
  IsDouble, AddSpec, task_dbuffer_add_lem, StillWaits, waiting_add-StillWaits,
}

abbrev first : Task
first = record { fp = 100; arg = 1 }

abbrev second : Task
second = record { fp = 200; arg = 2 }

-- One task waits in buffer 1; buffer 0 is full of tasks that were handed out.
abbrev busy : Double
busy = record {
  active = true;
  write_idx = 1;
  max_tasks = 2;
  count = λ i. if i == 0 then 2 else 1;
  buffer = λ _ _. first;
}

busy-IsDouble : IsDouble busy
busy-IsDouble = record { index = omega arith; capacity = omega arith; count_le = λ i. ground arith }

task_dbuffer_add_lem_example : AddSpec busy second (task_dbuffer_add busy second)
task_dbuffer_add_lem_example = task_dbuffer_add_lem busy second busy-IsDouble

-- Two tasks wait in buffer 0, which is full, so a third is held up.
abbrev full_buffer : Double
full_buffer = record busy { write_idx = 0; count = λ i. if i == 0 then 2 else 0 }

full-IsDouble : IsDouble full_buffer
full-IsDouble = record { index = omega arith; capacity = omega arith; count_le = λ i. ground arith }

third_waits : task_dbuffer_add full_buffer second ≡ waits 0
unfolding task_dbuffer_add add_at
third_waits = refl

waiting_add-StillWaits_example : StillWaits full_buffer second 0
waiting_add-StillWaits_example =
    waiting_add-StillWaits full_buffer second 0 full-IsDouble (omega arith) third_waits
