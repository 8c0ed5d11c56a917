-- ===== src/Examples/Workers.antt =====
-- A pool of two workers with a nil task and another: internal/network/worker_pool.go.
use t_chat.Base.{ℕ, ◌+◌, ◌*◌, ◌≤◌, ◌≡◌, refl, Bool, false, none, some, [], ◌∷◌, ltb, length, max}
use t_chat.Network.WorkerPool.{
  WorkerPool, new_worker_pool, start_worker, start_workers, start_pool, begin_submit, submit,
  take_task,
}
use t_chat.Network.WorkerPool.Balance.{Reachable, Reachable-IsBalanced}

abbrev is_high : ℕ → ℕ → Bool
is_high used capacity = ltb (4 * capacity) (5 * used)

abbrev running : WorkerPool ℕ
running = record {
  min_workers = 2;
  max_workers = 4;
  added = 2;
  left = 0;
  work_chan = some 7 ∷ [];
  capacity = 3;
  is_closed = false;
  processed_tasks = 0;
  queued_tasks = 2;
  last_adjust_time = 0;
  accepted = 2;
  sending = 0;
  refused = 0;
  broken = 0;
  skipped = 1;
  idle = 2;
  running = 0;
  counted = 0;
  uncounted = 0;
}

Reachable-IsBalanced_example :
    (running.accepted
      ≡ running.processed_tasks + (running.skipped + (running.running + length running.work_chan)))
    × (running.queued_tasks
        ≡ length running.work_chan
          + (running.sending + (running.refused + (running.running + running.counted)))
          + (running.skipped + running.broken))
    × (length running.work_chan ≤ running.capacity)
    × (running.added + running.uncounted
        ≡ running.left + (running.idle + (running.running + running.counted)))
    × (running.added + running.uncounted
        ≤ running.left + max running.min_workers running.max_workers)
unfolding new_worker_pool start_pool start_workers start_worker begin_submit submit take_task
Reachable-IsBalanced_example = Reachable-IsBalanced is_high running (
    Reachable.taken
      (Reachable.submitted (some 7)
        (Reachable.begun
          (Reachable.submitted none (Reachable.begun (Reachable.started 0 4 2 4 3)) refl))
        refl)
      refl)
