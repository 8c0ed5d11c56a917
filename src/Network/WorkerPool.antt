-- ===== src/Network/WorkerPool.antt =====
-- The pool of workers: internal/network/worker_pool.go. Its goroutines are the counts of those that
-- are at the same place. A step ends at the next use of a counter or of the channel. What tasks do,
-- and the wait group, are not modelled; a task returns. The test of the queue's usage, which the code
-- computes with floats, is a function of the two lengths.
pub mod Balance
use t_chat.Base.{
  ℕ, zero, suc, ◌+◌, ◌-◌, ◌*◌, Bool, true, false, ◌&&◌, Option, none, some, List, [], ◌∷◌, ◌++◌,
  ltb, if◌then◌else◌, length,
}
use t_chat.Network.Outcome.{Outcome, returns, panics}

-- Times are in nanoseconds, and a nil task is `none`. The counter currentWorkers is `added` less
-- `left`. What is only counted here: `accepted` are the calls of Submit that returned true, `sending`
-- those that have raised queuedTasks and not yet tried to send, `refused` those that found no room
-- and have not yet lowered it, `broken` those that panicked, `skipped` the nil tasks that workers have
-- received, `idle` the workers that wait for a task, `running` those whose task has not returned,
-- `counted` those that have raised processedTasks and not yet lowered queuedTasks, and `uncounted`
-- the new workers that currentWorkers leaves out yet.
pub record WorkerPool (T : Type 0) : Type 0 where
  pub min_workers : ℕ
  pub max_workers : ℕ
  pub added : ℕ
  pub left : ℕ
  pub work_chan : List (Option T)
  pub capacity : ℕ
  pub is_closed : Bool
  pub processed_tasks : ℕ
  pub queued_tasks : ℕ
  pub last_adjust_time : ℕ
  pub accepted : ℕ
  pub sending : ℕ
  pub refused : ℕ
  pub broken : ℕ
  pub skipped : ℕ
  pub idle : ℕ
  pub running : ℕ
  pub counted : ℕ
  pub uncounted : ℕ

module _ {T : Type 0} where
  unfoldable pub new_worker_pool : ℕ → ℕ → ℕ → ℕ → ℕ → WorkerPool T
  new_worker_pool now cpu_count min_workers max_workers queue_size =
      let low = if ltb min_workers 1 then 1 else min_workers in
      let high = if ltb max_workers low then low else max_workers in
      record {
        min_workers = low;
        max_workers = if ltb (cpu_count * 2) high then cpu_count * 2 else high;
        added = low;
        left = 0;
        work_chan = [];
        capacity = queue_size;
        is_closed = false;
        processed_tasks = 0;
        queued_tasks = 0;
        last_adjust_time = now;
        accepted = 0;
        sending = 0;
        refused = 0;
        broken = 0;
        skipped = 0;
        idle = 0;
        running = 0;
        counted = 0;
        uncounted = 0;
      }

  -- A new goroutine, which waits for a task.
  unfoldable pub start_worker : WorkerPool T → WorkerPool T
  start_worker wp = record wp { idle = suc wp.idle }

  unfoldable pub start_workers : ℕ → WorkerPool T → WorkerPool T
  unfolding start_worker
  start_workers zero wp = wp
  start_workers (suc n) wp = start_workers n (start_worker wp)

  unfoldable pub start_pool : WorkerPool T → WorkerPool T
  unfolding start_workers
  start_pool wp = start_workers wp.min_workers wp

  -- `Stop` up to its wait.
  unfoldable pub stop_pool : WorkerPool T → Outcome (WorkerPool T)
  stop_pool wp = if wp.is_closed then panics else returns (record wp { is_closed = true })

  -- The first line of Submit.
  unfoldable pub begin_submit : WorkerPool T → WorkerPool T
  begin_submit wp = record wp { queued_tasks = suc wp.queued_tasks; sending = suc wp.sending }

  -- The select of Submit. A send on a closed channel panics, and the counter keeps what was added.
  unfoldable pub submit : Option T → WorkerPool T → Option (WorkerPool T)
  submit task wp = elim wp.sending [
    | zero ↦ none
    | suc n ↦ some (
        if wp.is_closed
        then record wp { sending = n; broken = suc wp.broken }
        else if ltb (length wp.work_chan) wp.capacity
        then record wp {
          sending = n;
          work_chan = wp.work_chan ++ (task ∷ []);
          accepted = suc wp.accepted;
        }
        else record wp { sending = n; refused = suc wp.refused })
  ]

  -- Submit lowers the counter again.
  unfoldable pub take_back : WorkerPool T → Option (WorkerPool T)
  take_back wp = elim wp.refused [
    | zero ↦ none
    | suc n ↦ some (record wp { refused = n; queued_tasks = wp.queued_tasks - 1 })
  ]

  -- A worker receives a task, which it runs unless it is nil; `none` if there is no worker or no task.
  unfoldable pub take_task : WorkerPool T → Option (WorkerPool T)
  take_task wp = elim wp.idle [
    | zero ↦ none
    | suc n ↦ elim wp.work_chan [
      | [] ↦ none
      | task ∷ rest ↦ elim task [
        | none ↦ some (record wp { work_chan = rest; skipped = suc wp.skipped })
        | some t ↦ some (record wp { work_chan = rest; idle = n; running = suc wp.running })
      ]
    ]
  ]

  -- The task of a worker has returned, and processedTasks is raised.
  unfoldable pub count_task : WorkerPool T → Option (WorkerPool T)
  count_task wp = elim wp.running [
    | zero ↦ none
    | suc n ↦ some (record wp {
      running = n;
      counted = suc wp.counted;
      processed_tasks = suc wp.processed_tasks;
    })
  ]

  -- Then queuedTasks is lowered, and the worker waits again.
  unfoldable pub finish_task : WorkerPool T → Option (WorkerPool T)
  finish_task wp = elim wp.counted [
    | zero ↦ none
    | suc n ↦
        some (record wp { counted = n; idle = suc wp.idle; queued_tasks = wp.queued_tasks - 1 })
  ]

  -- A worker that waits sees that the context is done.
  unfoldable pub leave_worker : WorkerPool T → Option (WorkerPool T)
  leave_worker wp = elim wp.idle [
    | zero ↦ none
    | suc n ↦ some (record wp { idle = n; left = suc wp.left })
  ]

  -- adjustWorkerCount up to the count of the new worker, if it starts one.
  unfoldable pub adjust_worker_count : (ℕ → ℕ → Bool) → ℕ → WorkerPool T → WorkerPool T
  unfolding start_worker
  adjust_worker_count is_high now wp =
      if ltb (now - wp.last_adjust_time) 10000000000
      then wp
      else if is_high (length wp.work_chan) wp.capacity && ltb wp.added (wp.max_workers + wp.left)
      then record (start_worker wp) { uncounted = suc wp.uncounted }
      else record wp { last_adjust_time = now }

  -- The rest of adjustWorkerCount.
  unfoldable pub count_worker : ℕ → WorkerPool T → Option (WorkerPool T)
  count_worker now wp = elim wp.uncounted [
    | zero ↦ none
    | suc n ↦ some (record wp { uncounted = n; added = suc wp.added; last_adjust_time = now })
  ]
