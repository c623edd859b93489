-- ===== src/Scheduler/Stopping.antt =====
-- When `Scheduler::stopping` of myhttp/scheduler.cpp holds.
use http_practice.Prelude.{ℕ, ◌+◌, ◌^◌, ◌<◌, ◌≡◌, ap, ◌&&◌, arith, ◌==◌}
use http_practice.Scheduler.Queue.{is_empty}
use http_practice.Scheduler.Run.{Scheduler, stopping}
use http_practice.Scheduler.Counting.{busy, Counts, Reach}
use http_practice.Scheduler.Steps.{Reach-Counts}

-- From a state whose counter of active threads is that of the threads with a task, whatever
-- steps the threads and the callers of schedule and stop take, stopping holds exactly if both
-- flags are set, the queue is empty, no thread has a task and no fiber that was over was ever
-- picked, as long as threads with a task and such picks are fewer than 2^64.
pub stopping-quiet :
    (s m : Scheduler) (n : ℕ)
    → Counts 0 s
    → Reach s m n
    → busy m.workers + n < 2 ^ 64
    → stopping m
      ≡ (m.auto_stop && (m.stopping_flag && (is_empty m.tasks && (busy m.workers + n == 0))))
unfolding stopping
stopping-quiet s m n c r bound =
    let e : m.active_thread_count ≡ busy m.workers + n =
      omega (arith, Reach-Counts s m n c r, bound) in
    ap (λ a. m.auto_stop && (m.stopping_flag && (is_empty m.tasks && (a == 0)))) e
