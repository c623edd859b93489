-- ===== src/Scheduler/Run.antt =====
-- `Scheduler::run` of myhttp/scheduler.cpp as steps of its threads, which may come in any order: a
-- thread picks a task under the lock, begins it up to its swapIn, and goes on when that returns.
use http_practice.Prelude.{
  ℕ, suc, ◌+◌, ◌-◌, ◌%◌, ◌^◌, Bool, true, false, not, ◌&&◌, List, [], ◌∷◌, ◌++◌, Option, none, some,
  ◌==◌, if◌then◌else◌, get_elem?, set, length,
}
use http_practice.Prelude.Int.{negsuc}
use http_practice.Prelude.Results.{Result, ok, err, null_pointer, ◌>>=◌}
use http_practice.Scheduler.Fiber.{
  hold, Fiber, is_ready, is_over, is_term, assert, main_fiber, new_fiber, reset, swap_in, Outcome,
  given_back,
}
use http_practice.Scheduler.Queue.{
  Fibers, FiberAndThread, no_task, is_empty, schedule_no_lock, Picked, pick,
}

-- Where a thread is in `run`: at the head of the loop, past the lock, in a swapIn of the task's
-- fiber, of cb_fiber or of the idle fiber, before the `schedule` of a fiber that is READY, or out of
-- the loop.
pub data Phase : Type 0 where
  choosing picked in_fiber in_cb in_idle requeues_fiber requeues_cb finished : Phase

-- The locals of `run`.
pub record Worker : Type 0 where
  pub tid : ℕ
  pub phase : Phase
  pub ft : FiberAndThread
  pub cb_fiber : Option ℕ
  pub idle_fiber : ℕ

pub record Scheduler : Type 0 where
  pub tasks : List FiberAndThread
  pub fibers : Fibers
  pub workers : List Worker
  pub active_thread_count : ℕ
  pub idle_thread_count : ℕ
  pub stopping_flag : Bool
  pub auto_stop : Bool

-- `++` and `--` of an `std::atomic<size_t>`.
abbrev pub inc : ℕ → ℕ
inc n = (n + 1) % 2 ^ 64

abbrev pub dec : ℕ → ℕ
dec n = (n + 2 ^ 64 - 1) % 2 ^ 64

unfoldable pub stopping : Scheduler → Bool
stopping s = s.auto_stop && (s.stopping_flag && (is_empty s.tasks && (s.active_thread_count == 0)))

-- `start`, of threads with these ids: each makes its main fiber and its idle fiber, whose callback
-- is the number 0.
abbrev pub start_threads : List ℕ → Scheduler → Scheduler
start_threads [] s = s
start_threads (tid ∷ tids) s = start_threads tids (record s {
  fibers = s.fibers ++ (main_fiber ∷ new_fiber (some 0) ∷ []);
  workers =
      s.workers
      ++ (record {
        tid = tid;
        phase = choosing;
        ft = no_task;
        cb_fiber = none;
        idle_fiber = suc (length s.fibers);
      }
          ∷ []);
})

unfoldable pub start : List ℕ → Scheduler → Result Scheduler
start tids s =
    if not s.stopping_flag
    then ok s
    else assert (is_empty s.workers) (start_threads tids (record s { stopping_flag = false }))

-- `stop`: its flags, and what follows once `stopping` holds.
unfoldable pub stop_begin : Scheduler → Scheduler
stop_begin s = record s { auto_stop = true; stopping_flag = true }

unfoldable pub stop_end : Scheduler → Scheduler
stop_end s = if stopping s then record s { workers = [] } else s

unfoldable pub schedule : FiberAndThread → Scheduler → Scheduler
schedule t s = record s { tasks = (schedule_no_lock t s.tasks).0 }

abbrev pub schedule_fiber : ℕ → Scheduler → Scheduler
schedule_fiber h s = schedule (record { fiber = some h; cb = none; thread = negsuc 0 }) s

abbrev pub set_worker : ℕ → Worker → Scheduler → Scheduler
set_worker i w s = record s { workers = set s.workers i w }

abbrev pub set_fiber : ℕ → Fiber → Scheduler → Scheduler
set_fiber h f s = record s { fibers = set s.fibers h f }

abbrev pub fiber_at : Option Fiber → Result Fiber
fiber_at none = err null_pointer
fiber_at (some f) = ok f

-- What a thread does with what it picked.
abbrev pub took : ℕ → Worker → Scheduler → Picked → Scheduler
took i w s (none, (q, tickle_me)) =
    set_worker i (record w { phase = picked; ft = no_task }) (record s { tasks = q })
took i w s (some t, (q, tickle_me)) =
    set_worker i (record w { phase = picked; ft = t })
      (record s { tasks = q; active_thread_count = inc s.active_thread_count })

-- From the head of the loop to the end of the lock, by the thread `i`.
unfoldable pub pick_step : ℕ → Worker → Scheduler → Result Scheduler
pick_step i w s = pick s.fibers w.tid s.tasks >>= λ r. ok (took i w s r)

-- The fiber is swapped in, and the thread is in this phase until that returns.
abbrev pub enter : ℕ → Worker → Fiber → ℕ → Scheduler → Result Scheduler
enter i w f h s = swap_in f >>= λ g. ok (set_worker i w (set_fiber h g s))

-- No task: the thread ends, or turns to its idle fiber.
abbrev pub begin_idle : ℕ → Worker → Fiber → Scheduler → Result Scheduler
begin_idle i w f s =
    if is_term f.state
    then ok (set_worker i (record w { phase = finished }) s)
    else enter i (record w { phase = in_idle }) f w.idle_fiber
        (record s { idle_thread_count = inc s.idle_thread_count })

unfoldable pub idle_branch : ℕ → Worker → Scheduler → Result Scheduler
idle_branch i w s = fiber_at (get_elem? s.fibers w.idle_fiber) >>= λ f. begin_idle i w f s

-- A callback: cb_fiber is reset to it, or made.
abbrev pub cb_branch : ℕ → Worker → Option ℕ → Scheduler → Result Scheduler
cb_branch i w (some c) s = fiber_at (get_elem? s.fibers c) >>= λ f.
    reset w.ft.cb f >>= λ g. enter i (record w { phase = in_cb; ft = no_task }) g c s
cb_branch i w none s =
    let h = length s.fibers in
    let f = new_fiber w.ft.cb in
    enter i (record w { phase = in_cb; ft = no_task; cb_fiber = some h }) f h
      (record s { fibers = s.fibers ++ (f ∷ []) })

abbrev pub no_fiber_branch : ℕ → Worker → Option ℕ → Scheduler → Result Scheduler
no_fiber_branch i w none s = idle_branch i w s
no_fiber_branch i w (some c) s = cb_branch i w w.cb_fiber s

abbrev pub fiber_branch : ℕ → Worker → ℕ → Fiber → Scheduler → Result Scheduler
fiber_branch i w h f s =
    if is_over f.state
    then no_fiber_branch i w w.ft.cb s
    else enter i (record w { phase = in_fiber }) f h s

abbrev pub begin_task : ℕ → Worker → Option ℕ → Scheduler → Result Scheduler
begin_task i w none s = no_fiber_branch i w w.ft.cb s
begin_task i w (some h) s = fiber_at (get_elem? s.fibers h) >>= λ f. fiber_branch i w h f s

-- From the end of the lock to the first swapIn.
unfoldable pub begin_step : ℕ → Worker → Scheduler → Result Scheduler
begin_step i w s = begin_task i w w.ft.fiber s

abbrev pub held_back : Fiber → Fiber
held_back f = if is_over f.state then f else record f { state = hold }

abbrev pub less_active : Scheduler → Scheduler
less_active s = record s { active_thread_count = dec s.active_thread_count }

-- Behind the swapIn of the task's fiber.
abbrev pub after_fiber : ℕ → Worker → ℕ → Fiber → Scheduler → Scheduler
after_fiber i w h f s =
    if is_ready f.state
    then set_worker i (record w { phase = requeues_fiber }) (set_fiber h f (less_active s))
    else set_worker i (record w { phase = choosing; ft = no_task })
        (set_fiber h (held_back f) (less_active s))

-- Behind the swapIn of cb_fiber.
abbrev pub after_cb : ℕ → Worker → ℕ → Fiber → Scheduler → Result Scheduler
after_cb i w c f s =
    if is_ready f.state
    then ok (set_worker i (record w { phase = requeues_cb }) (set_fiber c f (less_active s)))
    else if is_over f.state
    then (reset none f >>= λ g.
        ok (set_worker i (record w { phase = choosing }) (set_fiber c g (less_active s))))
    else ok (
        set_worker i (record w { phase = choosing; cb_fiber = none })
          (set_fiber c (held_back f) (less_active s)))

-- Behind the swapIn of the idle fiber.
abbrev pub after_idle : ℕ → Worker → Fiber → Scheduler → Scheduler
after_idle i w f s =
    set_worker i (record w { phase = choosing })
      (set_fiber w.idle_fiber (held_back f)
        (record s { idle_thread_count = dec s.idle_thread_count }))

abbrev pub handle : Option ℕ → Result ℕ
handle none = err null_pointer
handle (some h) = ok h

-- A swapIn returns: the fiber that ran has given the thread back.
unfoldable pub return_step : ℕ → Worker → Outcome → Scheduler → Result Scheduler
return_step i w o s = elim w.phase [
  | in_fiber ↦ handle w.ft.fiber >>= λ h.
      fiber_at (get_elem? s.fibers h) >>= λ f. ok (after_fiber i w h (given_back o f) s)
  | in_cb ↦ handle w.cb_fiber >>= λ c.
      fiber_at (get_elem? s.fibers c) >>= λ f. after_cb i w c (given_back o f) s
  | in_idle ↦
      fiber_at (get_elem? s.fibers w.idle_fiber) >>= λ f. ok (after_idle i w (given_back o f) s)
  | _ ↦ ok s
]

-- The `schedule` of a fiber that came back READY.
unfoldable pub requeue_step : ℕ → Worker → Scheduler → Result Scheduler
requeue_step i w s = elim w.phase [
  | requeues_fiber ↦ handle w.ft.fiber >>= λ h.
      ok (set_worker i (record w { phase = choosing; ft = no_task }) (schedule_fiber h s))
  | requeues_cb ↦ handle w.cb_fiber >>= λ c.
      ok (set_worker i (record w { phase = choosing; cb_fiber = none }) (schedule_fiber c s))
  | _ ↦ ok s
]
