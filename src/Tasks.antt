-- ===== src/Tasks.antt =====
-- src/task_rbuffer.c and src/task_dbuffer.c: the queues of tasks between the threads.
pub mod Ring
pub mod Double
