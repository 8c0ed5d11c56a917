-- ===== src/Network/WorkerPool/Balance.antt =====
-- What the counters of internal/network/worker_pool.go count, in every run.
use t_chat.Base.{
  ℕ, zero, suc, ◌+◌, ◌≤◌, ◌≡◌, refl, ap, ◌∙◌, Bool, Option, some, [], ◌∷◌, length, length-append,
  max, arith,
}
use t_chat.Network.Outcome.{Outcome}
use t_chat.Network.WorkerPool.{
  WorkerPool, new_worker_pool, start_worker, start_workers, start_pool, stop_pool, begin_submit,
  submit, take_back, take_task, count_task, finish_task, leave_worker, adjust_worker_count,
  count_worker,
}

-- The runs that begin with `Start`. A worker may leave at any time, so also between the cancel and
-- the close of `Stop`. The mutex keeps adjustWorkerCount from running twice at the same time.
pub data Reachable {T : Type 0} (is_high : ℕ → ℕ → Bool) : WorkerPool T → Type 0 where
  started :
      (now cpu_count min_workers max_workers queue_size : ℕ)
      → Reachable is_high
          (start_pool (new_worker_pool now cpu_count min_workers max_workers queue_size))
  stopped :
      {wp wp' : WorkerPool T}
      → Reachable is_high wp
      → stop_pool wp ≡ Outcome.returns wp'
      → Reachable is_high wp'
  begun : {wp : WorkerPool T} → Reachable is_high wp → Reachable is_high (begin_submit wp)
  submitted :
      {wp wp' : WorkerPool T} (task : Option T)
      → Reachable is_high wp
      → submit task wp ≡ some wp'
      → Reachable is_high wp'
  taken_back :
      {wp wp' : WorkerPool T}
      → Reachable is_high wp
      → take_back wp ≡ some wp'
      → Reachable is_high wp'
  taken :
      {wp wp' : WorkerPool T}
      → Reachable is_high wp
      → take_task wp ≡ some wp'
      → Reachable is_high wp'
  counted :
      {wp wp' : WorkerPool T}
      → Reachable is_high wp
      → count_task wp ≡ some wp'
      → Reachable is_high wp'
  finished :
      {wp wp' : WorkerPool T}
      → Reachable is_high wp
      → finish_task wp ≡ some wp'
      → Reachable is_high wp'
  left :
      {wp wp' : WorkerPool T}
      → Reachable is_high wp
      → leave_worker wp ≡ some wp'
      → Reachable is_high wp'
  adjusted :
      {wp : WorkerPool T} (now : ℕ)
      → Reachable is_high wp
      → wp.uncounted ≡ 0
      → Reachable is_high (adjust_worker_count is_high now wp)
  grown :
      {wp wp' : WorkerPool T} (now : ℕ)
      → Reachable is_high wp
      → count_worker now wp ≡ some wp'
      → Reachable is_high wp'

module _ {T : Type 0} where
  abbrev pub IsBalanced : WorkerPool T → Type 0
  IsBalanced wp =
      (wp.accepted ≡ wp.processed_tasks + (wp.skipped + (wp.running + length wp.work_chan)))
      × (wp.queued_tasks
          ≡ length wp.work_chan
            + (wp.sending + (wp.refused + (wp.running + wp.counted)))
            + (wp.skipped + wp.broken))
      × (length wp.work_chan ≤ wp.capacity)
      × (wp.added + wp.uncounted ≡ wp.left + (wp.idle + (wp.running + wp.counted)))
      × (wp.added + wp.uncounted ≤ wp.left + max wp.min_workers wp.max_workers)

  start_workers-keeps :
      (n : ℕ) (wp : WorkerPool T) → start_workers n wp ≡ record wp { idle = n + wp.idle }
  unfolding start_workers start_worker
  start_workers-keeps zero wp =
      ap (λ (i : ℕ). record wp { idle = i }) {x = wp.idle} {y = zero + wp.idle} (omega arith)
  start_workers-keeps (suc n) wp =
      start_workers-keeps n (record wp { idle = suc wp.idle })
      ∙ ap (λ (i : ℕ). record wp { idle = i }) {x = n + suc wp.idle} {y = suc n + wp.idle}
          (omega arith)

  submit-IsBalanced :
      (task : Option T) (wp wp' : WorkerPool T)
      → submit task wp ≡ some wp'
      → IsBalanced wp
      → IsBalanced wp'
  unfolding submit
  submit-IsBalanced task wp wp' e b = ground (arith, length-append wp.work_chan (task ∷ []))

  take_back-IsBalanced :
      (wp wp' : WorkerPool T) → take_back wp ≡ some wp' → IsBalanced wp → IsBalanced wp'
  unfolding take_back
  take_back-IsBalanced wp wp' e b = ground arith

  take-IsBalanced :
      (wp wp' : WorkerPool T) → take_task wp ≡ some wp' → IsBalanced wp → IsBalanced wp'
  unfolding take_task
  take-IsBalanced wp wp' e b = ground arith

  count-IsBalanced :
      (wp wp' : WorkerPool T) → count_task wp ≡ some wp' → IsBalanced wp → IsBalanced wp'
  unfolding count_task
  count-IsBalanced wp wp' e b = ground arith

  finish-IsBalanced :
      (wp wp' : WorkerPool T) → finish_task wp ≡ some wp' → IsBalanced wp → IsBalanced wp'
  unfolding finish_task
  finish-IsBalanced wp wp' e b = ground arith

  leave-IsBalanced :
      (wp wp' : WorkerPool T) → leave_worker wp ≡ some wp' → IsBalanced wp → IsBalanced wp'
  unfolding leave_worker
  leave-IsBalanced wp wp' e b = ground arith

  stop-IsBalanced :
      (wp wp' : WorkerPool T) → stop_pool wp ≡ Outcome.returns wp' → IsBalanced wp → IsBalanced wp'
  unfolding stop_pool
  stop-IsBalanced wp wp' e b = ground arith

  begin-IsBalanced : (wp : WorkerPool T) → IsBalanced wp → IsBalanced (begin_submit wp)
  unfolding begin_submit
  begin-IsBalanced wp b = ground arith

  adjust-IsBalanced :
      (is_high : ℕ → ℕ → Bool) (now : ℕ) (wp : WorkerPool T)
      → wp.uncounted ≡ 0
      → IsBalanced wp
      → IsBalanced (adjust_worker_count is_high now wp)
  unfolding adjust_worker_count start_worker
  adjust-IsBalanced is_high now wp alone b = ground arith

  grow-IsBalanced :
      (now : ℕ) (wp wp' : WorkerPool T)
      → count_worker now wp ≡ some wp'
      → IsBalanced wp
      → IsBalanced wp'
  unfolding count_worker
  grow-IsBalanced now wp wp' e b = ground arith

start-IsBalanced :
    (T : Type 0) (now cpu_count low high size : ℕ)
    → IsBalanced (start_pool (new_worker_pool {T = T} now cpu_count low high size))
unfolding start_pool new_worker_pool
start-IsBalanced T now cpu_count low high size =
    rw (start_workers-keeps, start_pool) (refl, refl, omega arith, omega arith, ground arith)

-- In every run that begins with `Start`, at every step of its goroutines: each task that Submit has
-- accepted is processed, was nil, runs or is in the channel; queuedTasks counts the tasks in the
-- channel, the calls of Submit and the workers that are between raising and lowering it, and for ever
-- each nil task that a worker received and each call of Submit that panicked; the channel is within
-- its capacity; and currentWorkers, with a new worker that it leaves out yet, counts the goroutines,
-- at most as many as the larger of the two limits.
pub Reachable-IsBalanced :
    {T : Type 0} (is_high : ℕ → ℕ → Bool) (wp : WorkerPool T)
    → Reachable is_high wp
    → (wp.accepted ≡ wp.processed_tasks + (wp.skipped + (wp.running + length wp.work_chan)))
      × (wp.queued_tasks
          ≡ length wp.work_chan
            + (wp.sending + (wp.refused + (wp.running + wp.counted)))
            + (wp.skipped + wp.broken))
      × (length wp.work_chan ≤ wp.capacity)
      × (wp.added + wp.uncounted ≡ wp.left + (wp.idle + (wp.running + wp.counted)))
      × (wp.added + wp.uncounted ≤ wp.left + max wp.min_workers wp.max_workers)
Reachable-IsBalanced {T} is_high _ (Reachable.started now cpu_count low high size) =
    start-IsBalanced T now cpu_count low high size
Reachable-IsBalanced is_high wp (Reachable.stopped {wp = w} r e) =
    stop-IsBalanced w wp e (Reachable-IsBalanced is_high w r)
Reachable-IsBalanced is_high _ (Reachable.begun {wp = w} r) =
    begin-IsBalanced w (Reachable-IsBalanced is_high w r)
Reachable-IsBalanced is_high wp (Reachable.submitted {wp = w} task r e) =
    submit-IsBalanced task w wp e (Reachable-IsBalanced is_high w r)
Reachable-IsBalanced is_high wp (Reachable.taken_back {wp = w} r e) =
    take_back-IsBalanced w wp e (Reachable-IsBalanced is_high w r)
Reachable-IsBalanced is_high wp (Reachable.taken {wp = w} r e) =
    take-IsBalanced w wp e (Reachable-IsBalanced is_high w r)
Reachable-IsBalanced is_high wp (Reachable.counted {wp = w} r e) =
    count-IsBalanced w wp e (Reachable-IsBalanced is_high w r)
Reachable-IsBalanced is_high wp (Reachable.finished {wp = w} r e) =
    finish-IsBalanced w wp e (Reachable-IsBalanced is_high w r)
Reachable-IsBalanced is_high wp (Reachable.left {wp = w} r e) =
    leave-IsBalanced w wp e (Reachable-IsBalanced is_high w r)
Reachable-IsBalanced is_high _ (Reachable.adjusted {wp = w} now r alone) =
    adjust-IsBalanced is_high now w alone (Reachable-IsBalanced is_high w r)
Reachable-IsBalanced is_high wp (Reachable.grown {wp = w} now r e) =
    grow-IsBalanced now w wp e (Reachable-IsBalanced is_high w r)
