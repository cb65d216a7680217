-- ===== src/Queue/Stop.antt =====
-- The end of `core_queue_thread_worker_stop` of src/core/halmos_core_queue.c.
use halmos.Base.{◌≡◌, false, [], ◌++◌}
use halmos.Queue.{stop_must_wait}
use halmos.Queue.Pool.{Pool, Reach}

-- No thread is there or is to come, no slot is to be given back, and no task is left.
record IsQuiet (p : Pool) : Type 0 where
  live : p.live ≡ 0
  reserved : p.reserved ≡ 0
  failed : p.failed ≡ 0
  tasks : p.queue.tasks ≡ []

abbrev Quietens : Pool → Type 0
Quietens p = (q : Pool) × Reach p q × IsQuiet q

-- The wait is over, no thread is left or due, and every accepted task was taken by a worker or drained.
pub record IsOver (p : Pool) : Type 0 where
  pub waited : stop_must_wait p.queue ≡ false
  pub no_thread : p.live ≡ 0
  pub none_due : p.reserved ≡ 0
  pub no_slot : p.failed ≡ 0
  pub no_task : p.queue.tasks ≡ []
  pub all_gone : p.accepted_log ≡ p.taken_log ++ p.drained_log
