-- ===== src/Queue/Laws.antt =====
-- The invariant of the pool in src/core/halmos_core_queue.c under any interleaving.
use halmos.Base.{
  ℕ, ◌+◌, ◌-◌, ◌≤◌, ◌<◌, ◌≡◌, refl, Bool, true, false, List, [], ◌∷◌, ◌++◌, length, length-append,
  arith, ap, sym, ◌∙◌, ◌⊎◌, ◌↔◌, inl, inr, Bool-cases,
}
use mathlib.Core.List.{append_assoc, append-nil, map-append}
use halmos.Queue.{
  Event, Task, TaskQueue, PopOutcome, waits, exits, takes, init_queue, push_locked, give_back,
  finish_scaling, pop_enter, pop_wake, mark_worker_idle, stop_begin, stop_drain, stop_must_wait,
  get_adaptive_timeout, reserve, enqueue, take_task, exit_worker,
}
use halmos.Queue.Pool.{
  Pool, core_queue_thread_worker_start, after_push, after_pop, Step, push, create, create_fails,
  return_slots, end_scaling, pop_begins, pop_wakes, task_done, stop_begins, stop_drains, events_of,
  Reach, here, next,
}

-- `lost` slots have no thread, and nobody gives them back.
pub record IsConsistent (lost worker_max : ℕ) (p : Pool) : Type 0 where
  pub counted : p.queue.count ≡ length p.queue.tasks
  pub bounded : p.queue.count ≤ p.queue.max_queue_limit
  pub workers : p.queue.total_workers ≡ p.live + p.reserved + p.failed + lost
  pub capped : p.queue.total_workers ≤ worker_max
  pub ceiling : p.queue.max_threads_limit ≡ worker_max
  pub active : p.queue.active_workers ≡ p.busy
  pub busy_live : p.busy ≤ p.live
  pub fifo : p.accepted_log ≡ (p.taken_log ++ p.drained_log) ++ events_of p.queue.tasks
  pub drained : (p.drained_log ≡ []) ⊎ (p.queue.is_running ≡ false)

List-cases {ℓ} :
    {A : Type ℓ} (xs : List A) → (xs ≡ []) ⊎ ((x : A) × (rest : List A) × (xs ≡ x ∷ rest))
List-cases [] = inl refl
List-cases (x ∷ xs) = inr (x, xs, refl)

abbrev pub last_task : Event → ℕ → List Task
last_task e now = record { event = e; arrival_time = now } ∷ []

reserve-cases :
    (q : TaskQueue)
    → ((reserve q).0.total_workers ≡ q.total_workers + (reserve q).1)
      × (q.total_workers ≤ q.max_threads_limit → (reserve q).0.total_workers ≤ q.max_threads_limit)
      × ((reserve q).0.tasks ≡ q.tasks)
      × ((reserve q).0.count ≡ q.count)
      × ((reserve q).0.max_queue_limit ≡ q.max_queue_limit)
      × ((reserve q).0.max_threads_limit ≡ q.max_threads_limit)
      × ((reserve q).0.active_workers ≡ q.active_workers)
      × ((reserve q).0.is_running ≡ q.is_running)
unfolding reserve
reserve-cases q = ground arith

fifo_push :
    (acc taken : List Event) (ts : List Task) (e : Event) (now : ℕ)
    → acc ≡ taken ++ events_of ts
    → acc ++ e ∷ [] ≡ taken ++ events_of (ts ++ last_task e now)
fifo_push acc taken ts e now h = rw (h, append_assoc, map-append) refl

fifo_take :
    (acc taken drained : List Event) (t : Task) (ts : List Task)
    → drained ≡ []
    → acc ≡ (taken ++ drained) ++ events_of (t ∷ ts)
    → acc ≡ ((taken ++ t.event ∷ []) ++ drained) ++ events_of ts
fifo_take acc taken drained t ts none h =
    let before : acc ≡ taken ++ events_of (t ∷ ts) =
      h
      ∙ ap (λ d. (taken ++ d) ++ events_of (t ∷ ts)) none
      ∙ ap (λ x. x ++ events_of (t ∷ ts)) (append-nil taken) in
    before
    ∙ sym (append_assoc taken (t.event ∷ []) (events_of ts))
    ∙ ap (λ x. x ++ events_of ts) (sym (append-nil (taken ++ t.event ∷ [])))
    ∙ ap (λ d. ((taken ++ t.event ∷ []) ++ d) ++ events_of ts) (sym none)

fifo_drain :
    (acc taken drained events : List Event)
    → acc ≡ (taken ++ drained) ++ events
    → acc ≡ (taken ++ (drained ++ events)) ++ []
fifo_drain acc taken drained events h =
    h ∙ append_assoc taken drained events ∙ sym (append-nil (taken ++ (drained ++ events)))

not_drained :
    (drained : List Event) (running : Bool)
    → (drained ≡ []) ⊎ (running ≡ false)
    → running ≡ true
    → drained ≡ []
not_drained drained running (inl e) h = e
not_drained drained running (inr e) h = absurd (ground (arith, e, h))

-- The ways in which a pass of `core_queue_pop` can end.
abbrev IsOutcome : TaskQueue → PopOutcome → Type 0
IsOutcome q o =
    (o ≡ waits)
    ⊎ ((o ≡ exits (exit_worker q))
        ⊎ ((t : Task) × (rest : List Task) × (q.is_running ≡ true)
            × (q.tasks ≡ t ∷ rest)
            × (o ≡ takes t (take_task q t rest))))

pop_enter-IsOutcome : (q : TaskQueue) → IsOutcome q (pop_enter q)
pop_enter-IsOutcome q = elim (List-cases q.tasks) [
  | inl e ↦ elim (Bool-cases q.is_running) [
    | inl run ↦ inl (unfold pop_enter in ground arith)
    | inr off ↦ inr (inl (unfold pop_enter in ground arith))
  ]
  | inr (t, rest, e) ↦ elim (Bool-cases q.is_running) [
    | inl run ↦ inr (inr (t, rest, run, e, unfold pop_enter in ground arith))
    | inr off ↦ inr (inl (unfold pop_enter in ground arith))
  ]
]

pop_wake-IsOutcome : (q : TaskQueue) (timed_out : Bool) → IsOutcome q (pop_wake q timed_out)
unfolding pop_wake
pop_wake-IsOutcome q timed_out = ground (arith, pop_enter-IsOutcome q)

module _ {lost m : ℕ} where
  push-IsConsistent :
      (p : Pool) (e : Event) (now : ℕ) (b : Bool)
      → IsConsistent lost m p
      → IsConsistent lost m (after_push p e (push_locked p.queue e now b))
  unfolding after_push push_locked
  push-IsConsistent p e now b c =
      unfold enqueue in
      ground (
        arith,
        reserve-cases (enqueue p.queue e now),
        length-append p.queue.tasks (last_task e now),
        fifo_push p.accepted_log (p.taken_log ++ p.drained_log) p.queue.tasks e now c.fifo,
      )

  takes-IsConsistent :
      (p : Pool) (t : Task) (rest : List Task)
      → p.queue.is_running ≡ true
      → p.queue.tasks ≡ t ∷ rest
      → p.busy < p.live
      → IsConsistent lost m p
      → IsConsistent lost m (after_pop p (takes t (take_task p.queue t rest)))
  unfolding after_pop take_task
  takes-IsConsistent p t rest run e h c =
      let none = not_drained p.drained_log p.queue.is_running c.drained run in
      ground (
        arith,
        ap length e,
        fifo_take p.accepted_log p.taken_log p.drained_log t rest none
            (c.fifo ∙ ap (λ ts. (p.taken_log ++ p.drained_log) ++ events_of ts) e),
      )

  exits-IsConsistent :
      (p : Pool)
      → p.busy < p.live
      → IsConsistent lost m p
      → IsConsistent lost m (after_pop p (exits (exit_worker p.queue)))
  unfolding after_pop exit_worker
  exits-IsConsistent p h c = ground arith

  outcome-IsConsistent :
      (p : Pool) (o : PopOutcome)
      → p.busy < p.live
      → IsConsistent lost m p
      → IsOutcome p.queue o
      → IsConsistent lost m (after_pop p o)
  outcome-IsConsistent p o h c (inl e) = rw e (unfold after_pop in c)
  outcome-IsConsistent p o h c (inr (inl e)) = rw e (exits-IsConsistent p h c)
  outcome-IsConsistent p o h c (inr (inr (t, rest, run, et, e))) =
      rw e (takes-IsConsistent p t rest run et h c)

  -- One critical section of any thread keeps the pool consistent.
  pub Step-IsConsistent : {p q : Pool} → Step p q → IsConsistent lost m p → IsConsistent lost m q
  unfolding give_back finish_scaling mark_worker_idle stop_begin stop_drain
  Step-IsConsistent (push p e now b) c = push-IsConsistent p e now b c
  Step-IsConsistent (create p r e) c = ground arith
  Step-IsConsistent (create_fails p r e) c = ground arith
  Step-IsConsistent (return_slots p) c = ground arith
  Step-IsConsistent (end_scaling p) c = ground arith
  Step-IsConsistent (pop_begins p h) c = outcome-IsConsistent p _ h c (pop_enter-IsOutcome p.queue)
  Step-IsConsistent (pop_wakes p b h) c =
      outcome-IsConsistent p _ h c (pop_wake-IsOutcome p.queue b)
  Step-IsConsistent (task_done p b e) c = ground arith
  Step-IsConsistent (stop_begins p) c = ground arith
  Step-IsConsistent (stop_drains p off) c =
      let logs =
        fifo_drain p.accepted_log p.taken_log p.drained_log (events_of p.queue.tasks) c.fifo in
      ground (arith, logs)

  pub Reach-IsConsistent : {p q : Pool} → IsConsistent lost m p → Reach p q → IsConsistent lost m q
  Reach-IsConsistent c here = c
  Reach-IsConsistent c (next r s) = Step-IsConsistent s (Reach-IsConsistent c r)

start-IsConsistent :
    (worker_min worker_max capacity created : ℕ)
    → worker_min ≤ worker_max
    → created ≤ worker_min
    → IsConsistent
        (worker_min - created)
        worker_max
        (core_queue_thread_worker_start worker_min worker_max capacity created)
unfolding core_queue_thread_worker_start init_queue
start-IsConsistent worker_min worker_max capacity created h k = ground arith

-- A pool started with `created` of `g_worker_min` threads. In every state that any interleaving
-- reaches, the count of workers is that of the threads that exist, are about to be created or were
-- not and are about to be given back, plus the slots of the threads that failed to start at first;
-- it is at most `g_worker_max`; the queue's count is its length, within the capacity; the busy
-- workers are as many as the tasks in work; and what was accepted is what was taken, in that order,
-- followed by what the stop drained, of which there is nothing while the pool runs, and by the
-- queue's content.
pub start_reaches-IsConsistent :
    (worker_min worker_max capacity created : ℕ) {p : Pool}
    → worker_min ≤ worker_max
    → created ≤ worker_min
    → Reach (core_queue_thread_worker_start worker_min worker_max capacity created) p
    → IsConsistent (worker_min - created) worker_max p
start_reaches-IsConsistent worker_min worker_max capacity created h k r =
    Reach-IsConsistent (start-IsConsistent worker_min worker_max capacity created h k) r

-- Where some thread failed to start at first, the wait of `core_queue_thread_worker_stop` never
-- ends: in every state that is ever reached it finds workers left, also when no thread exists.
pub stop_hangs :
    (worker_min worker_max capacity created : ℕ) {p : Pool}
    → worker_min ≤ worker_max
    → created < worker_min
    → Reach (core_queue_thread_worker_start worker_min worker_max capacity created) p
    → stop_must_wait p.queue ≡ true
unfolding stop_must_wait
stop_hangs worker_min worker_max capacity created h k r =
    ground
      (arith, start_reaches-IsConsistent worker_min worker_max capacity created h (omega arith) r)

-- Where every thread started, the wait is over exactly when no thread exists, none is to be created, and no slot
-- of one that was not is still to be given back.
pub stop_waits_for_threads :
    (worker_min worker_max capacity : ℕ) {p : Pool}
    → worker_min ≤ worker_max
    → Reach (core_queue_thread_worker_start worker_min worker_max capacity worker_min) p
    → (stop_must_wait p.queue ≡ false) ↔ (p.live + p.reserved + p.failed ≡ 0)
unfolding stop_must_wait
stop_waits_for_threads worker_min worker_max capacity h r =
    ground (
      arith,
      start_reaches-IsConsistent worker_min worker_max capacity worker_min h (omega arith) r,
    )

-- `core_queue_pop` computes its timeout where the queue is empty, and there the adaptive choice is
-- always 30 seconds: the longer waits for a loaded queue are never used.
pub get_adaptive_timeout-empty :
    (worker_min worker_max capacity created n_cores : ℕ) {p : Pool}
    → worker_min ≤ worker_max
    → created ≤ worker_min
    → Reach (core_queue_thread_worker_start worker_min worker_max capacity created) p
    → p.queue.tasks ≡ []
    → get_adaptive_timeout p.queue n_cores ≡ 30
unfolding get_adaptive_timeout
get_adaptive_timeout-empty worker_min worker_max capacity created n_cores h k r e =
    ground
      (arith, ap length e, start_reaches-IsConsistent worker_min worker_max capacity created h k r)
