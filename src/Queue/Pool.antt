-- ===== src/Queue/Pool.antt =====
-- Threads over the task queue of src/core/halmos_core_queue.c: the event loop pushes, workers pop,
-- and the critical sections interleave in any order.
use halmos.Base.{ℕ, suc, ◌+◌, ◌-◌, ◌<◌, ◌≡◌, Bool, false, List, [], ◌∷◌, ◌++◌, map}
use halmos.Queue.{
  Event, Task, TaskQueue, PushResult, accepted, PopOutcome, waits, exits, takes, init_queue,
  push_locked, give_back, finish_scaling, pop_enter, pop_wake, mark_worker_idle, stop_begin,
  stop_drain,
}

abbrev pub events_of : List Task → List Event
events_of = map λ t. t.event

-- The queue, and what its fields do not say: the worker threads that exist, how many of them hold a
-- task, the reserved slots for which `pthread_create` is still to come, those for which it failed
-- and which are still to be given back, and the tasks accepted, taken by workers and drained so far.
pub record Pool : Type 0 where
  pub queue : TaskQueue
  pub live : ℕ
  pub busy : ℕ
  pub reserved : ℕ
  pub failed : ℕ
  pub accepted_log : List Event
  pub taken_log : List Event
  pub drained_log : List Event

-- `core_queue_thread_worker_start`, of whose `g_worker_min` calls of `pthread_create` `created`
-- succeed.
unfoldable pub core_queue_thread_worker_start : ℕ → ℕ → ℕ → ℕ → Pool
core_queue_thread_worker_start g_worker_min g_worker_max g_queue_capacity created = record {
  queue = init_queue g_worker_min g_worker_max g_queue_capacity;
  live = created;
  busy = 0;
  reserved = 0;
  failed = 0;
  accepted_log = [];
  taken_log = [];
  drained_log = [];
}

unfoldable pub after_push : Pool → Event → TaskQueue × PushResult × ℕ → Pool
after_push p e (q, accepted, n) = record p {
  queue = q;
  reserved = p.reserved + n;
  accepted_log = p.accepted_log ++ e ∷ [];
}
after_push p e (q, _, n) = record p { queue = q; reserved = p.reserved + n }

unfoldable pub after_pop : Pool → PopOutcome → Pool
after_pop p waits = p
after_pop p (exits q) = record p { queue = q; live = p.live - 1 }
after_pop p (takes t q) = record p {
  queue = q;
  busy = p.busy + 1;
  taken_log = p.taken_log ++ t.event ∷ [];
}

-- One critical section of one thread. A worker that pops exists and holds no task; the queue is drained at
-- any time after the stop has begun, of which the end of its wait is one.
pub data Step : Pool → Pool → Type 0 where
  push :
      (p : Pool) (e : Event) (now : ℕ) (malloc_ok : Bool)
      → Step p (after_push p e (push_locked p.queue e now malloc_ok))
  create :
      (p : Pool) (r : ℕ)
      → p.reserved ≡ suc r
      → Step p (record p { reserved = r; live = p.live + 1 })
  create_fails :
      (p : Pool) (r : ℕ)
      → p.reserved ≡ suc r
      → Step p (record p { reserved = r; failed = p.failed + 1 })
  return_slots : (p : Pool) → Step p (record p { queue = give_back p.queue p.failed; failed = 0 })
  end_scaling : (p : Pool) → Step p (record p { queue = finish_scaling p.queue })
  pop_begins : (p : Pool) → p.busy < p.live → Step p (after_pop p (pop_enter p.queue))
  pop_wakes :
      (p : Pool) (timed_out : Bool)
      → p.busy < p.live
      → Step p (after_pop p (pop_wake p.queue timed_out))
  task_done :
      (p : Pool) (b : ℕ)
      → p.busy ≡ suc b
      → Step p (record p { queue = mark_worker_idle p.queue; busy = b })
  stop_begins : (p : Pool) → Step p (record p { queue = stop_begin p.queue })
  stop_drains :
      (p : Pool)
      → p.queue.is_running ≡ false
      → Step p (record p {
        queue = (stop_drain p.queue).0;
        drained_log = p.drained_log ++ events_of p.queue.tasks;
      })

pub data Reach (p : Pool) : Pool → Type 0 where
  here : Reach p p
  next : {q r : Pool} → Reach p q → Step q r → Reach p r
