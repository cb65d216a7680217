-- ===== src/Tests/Queue.antt =====
-- Runs of the worker pool, src/core/halmos_core_queue.c.
use halmos.Base.{◌-◌, ◌≡◌, true, arith}
use halmos.Base.Int.{pos}
use halmos.Queue.{Event, stop_must_wait, push_locked}
use halmos.Queue.Pool.{Pool, core_queue_thread_worker_start, Reach, here, next, push, after_push}
use halmos.Queue.Laws.{IsConsistent, start_reaches-IsConsistent, stop_hangs}

abbrev readable : Event
readable = record { fd = pos 5; generation = 1; events = 1 }

-- One thread of two came up, and one event was pushed.
abbrev one_missing : Pool
one_missing = core_queue_thread_worker_start 2 8 4 1

abbrev pushed : Pool → Pool
pushed p = after_push p readable (push_locked p.queue readable 100 true)

abbrev after_one_push : (p : Pool) → Reach p (pushed p)
after_one_push p = next here (push p readable 100 true)

start_reaches-IsConsistent_example : IsConsistent (2 - 1) 8 (pushed one_missing)
start_reaches-IsConsistent_example =
    start_reaches-IsConsistent 2 8 4 1 (omega arith) (omega arith) (after_one_push one_missing)

stop_hangs_example : stop_must_wait (pushed one_missing).queue ≡ true
stop_hangs_example = stop_hangs 2 8 4 1 (omega arith) (omega arith) (after_one_push one_missing)
