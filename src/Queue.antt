-- ===== src/Queue.antt =====
-- The task queue and the worker pool's size, src/core/halmos_core_queue.c. The linked list from
-- `head` to `tail` is a list, oldest task first. Each critical section (what runs between lock and
-- unlock) is one function; threads, time, `malloc` and `pthread_create` enter as arguments.
pub mod Pool
pub mod Laws
pub mod Stop
use halmos.Base.{
  ℕ, suc, ◌+◌, ◌-◌, ◌*◌, ◌/◌, Bool, true, false, ◌&&◌, ◌||◌, not, List, [], ◌∷◌, ◌++◌, map, ltb,
  leb, if◌then◌else◌, ◌==◌,
}
use halmos.Base.Int.{ℤ, pos, negsuc}

pub record Event : Type 0 where
  pub fd : ℤ
  pub generation : ℕ
  pub events : ℕ

pub record Task : Type 0 where
  pub event : Event
  pub arrival_time : ℕ

-- `count` and the worker counts are kept apart from the list, as in the source.
pub record TaskQueue : Type 0 where
  pub tasks : List Task
  pub count : ℕ
  pub max_queue_limit : ℕ
  pub active_workers : ℕ
  pub total_workers : ℕ
  pub scaling_in_progress : Bool
  pub is_running : Bool
  pub min_threads_limit : ℕ
  pub max_threads_limit : ℕ

unfoldable pub init_queue : ℕ → ℕ → ℕ → TaskQueue
init_queue min_limit max_limit max_queue_size = record {
  tasks = [];
  count = 0;
  max_queue_limit = max_queue_size;
  active_workers = 0;
  total_workers = min_limit;
  scaling_in_progress = false;
  is_running = true;
  min_threads_limit = min_limit;
  max_threads_limit = max_limit;
}

unfoldable pub enqueue : TaskQueue → Event → ℕ → TaskQueue
enqueue q e now = record q {
  tasks = q.tasks ++ record { event = e; arrival_time = now } ∷ [];
  count = q.count + 1;
}

-- `max_queue_limit * 0.5`, truncated to an int.
unfoldable pub queue_threshold : TaskQueue → ℕ
queue_threshold q = q.max_queue_limit / 2

-- Whether `core_queue_push` reserves worker slots, and how many.
unfoldable pub wants_scaling : TaskQueue → Bool
unfolding queue_threshold
wants_scaling q =
    ltb (queue_threshold q) q.count
    && ltb q.total_workers q.max_threads_limit
    && not q.scaling_in_progress

unfoldable pub spawn_count : TaskQueue → ℕ
spawn_count q =
    let available_slots = q.max_threads_limit - q.total_workers in
    if ltb available_slots 4 then available_slots else 4

unfoldable pub reserve : TaskQueue → TaskQueue × ℕ
unfolding wants_scaling spawn_count
reserve q =
    if wants_scaling q
    then (
      record q { total_workers = q.total_workers + spawn_count q; scaling_in_progress = true },
      spawn_count q,
    )
    else (q, 0)

pub data PushResult : Type 0 where
  accepted : PushResult
  full : PushResult
  out_of_memory : PushResult

-- The first critical section of `core_queue_push`: the queue, the result (0, -1 or -2) and the
-- number of threads to spawn.
unfoldable pub push_locked : TaskQueue → Event → ℕ → Bool → TaskQueue × PushResult × ℕ
unfolding enqueue reserve
push_locked q e now malloc_ok =
    if leb q.max_queue_limit q.count
    then (q, full, 0)
    else if malloc_ok
    then (let (q', n) = reserve (enqueue q e now) in (q', accepted, n))
    else (q, out_of_memory, 0)

-- The second: the slots of the threads that could not be created are given back.
unfoldable pub give_back : TaskQueue → ℕ → TaskQueue
give_back q failed = record q { total_workers = q.total_workers - failed }

-- The third.
unfoldable pub finish_scaling : TaskQueue → TaskQueue
finish_scaling q = record q { scaling_in_progress = false }

-- The whole call where no other thread comes between; `spawned` is how many of the threads to spawn
-- were created.
unfoldable pub core_queue_push : TaskQueue → Event → ℕ → Bool → ℕ → TaskQueue × PushResult
unfolding push_locked give_back finish_scaling
core_queue_push q e now malloc_ok spawned =
    let (q', r, n) = push_locked q e now malloc_ok in
    if n == 0
    then (q', r)
    else if ltb spawned n
    then (finish_scaling (give_back q' (n - spawned)), r)
    else (finish_scaling q', r)

-- How a pass of `core_queue_pop` through its critical section ends: the thread waits on `cond`,
-- exits with -3, or takes a task.
pub data PopOutcome : Type 0 where
  waits : PopOutcome
  exits : TaskQueue → PopOutcome
  takes : Task → TaskQueue → PopOutcome

unfoldable pub exit_worker : TaskQueue → TaskQueue
exit_worker q = record q { total_workers = q.total_workers - 1 }

unfoldable pub take_task : TaskQueue → Task → List Task → TaskQueue
take_task q t rest = record q {
  tasks = rest;
  count = q.count - 1;
  active_workers = q.active_workers + 1;
}

-- From the test of the `while` loop on.
unfoldable pub pop_enter : TaskQueue → PopOutcome
unfolding exit_worker take_task
pop_enter q = elim q.tasks [
  | [] ↦ if q.is_running then waits else exits (exit_worker q)
  | t ∷ rest ↦ if q.is_running then takes t (take_task q t rest) else exits (exit_worker q)
]

abbrev is_empty {ℓ} : {A : Type ℓ} → List A → Bool
is_empty [] = true
is_empty (x ∷ xs) = false

-- From the return of `pthread_cond_timedwait` on; `timed_out` is `rc == ETIMEDOUT`.
unfoldable pub pop_wake : TaskQueue → Bool → PopOutcome
unfolding exit_worker pop_enter
pop_wake q timed_out =
    if not q.is_running
    then exits (exit_worker q)
    else if timed_out && is_empty q.tasks && ltb q.min_threads_limit q.total_workers
    then exits (exit_worker q)
    else pop_enter q

-- The seconds to wait. The float `count / max_queue_limit > 0.5` is compared exactly.
unfoldable pub get_adaptive_timeout : TaskQueue → ℕ → ℕ
get_adaptive_timeout q n_cores =
    let cores = if n_cores == 0 then 1 else n_cores in
    let heavy = ltb 0 q.max_queue_limit && ltb q.max_queue_limit (2 * q.count) in
    if heavy || ltb (cores * 2) q.count then 300 else if ltb 0 q.count then 60 else 30

-- `mark_worker_idle` of src/core/halmos_core_thread_pool.c.
unfoldable pub mark_worker_idle : TaskQueue → TaskQueue
mark_worker_idle q = record q { active_workers = q.active_workers - 1 }

-- `core_queue_thread_worker_stop`: the flag, the test of its wait, and the drained queue with the
-- descriptors that are deactivated and closed.
unfoldable pub stop_begin : TaskQueue → TaskQueue
stop_begin q = record q { is_running = false }

unfoldable pub stop_must_wait : TaskQueue → Bool
stop_must_wait q = ltb 0 q.total_workers

abbrev closable : List Task → List ℤ
closable [] = []
closable (t ∷ ts) = elim t.event.fd [ pos n ↦ pos n ∷ closable ts | negsuc n ↦ closable ts ]

unfoldable pub stop_drain : TaskQueue → TaskQueue × List ℤ
stop_drain q = (record q { tasks = []; count = 0 }, closable q.tasks)
