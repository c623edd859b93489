-- ===== src/Scheduler/Queue.antt =====
-- The queue of tasks of myhttp/scheduler.h and myhttp/scheduler.cpp.
use http_practice.Prelude.{
  ℕ, zero, suc, Bool, true, false, not, ◌||◌, List, [], ◌∷◌, ◌++◌, Option, none, some, ◌==◌,
  if◌then◌else◌, get_elem?,
}
use http_practice.Prelude.Int.{ℤ, pos, negsuc}
use http_practice.Prelude.Results.{Result, ok, err, failed_assertion, ◌>>=◌}
use http_practice.Scheduler.Fiber.{Fiber, is_exec, has_cb}

-- The fibers that exist; a `Fiber::ptr` is an index.
abbrev pub Fibers : Type 0
Fibers = List Fiber

pub record FiberAndThread : Type 0 where
  pub fiber : Option ℕ
  pub cb : Option ℕ
  pub thread : ℤ

-- What `reset` leaves.
abbrev pub no_task : FiberAndThread
no_task = record { fiber = none; cb = none; thread = negsuc 0 }

abbrev pub is_task : FiberAndThread → Bool
is_task t = has_cb t.fiber || has_cb t.cb

abbrev pub is_empty {ℓ} : {A : Type ℓ} → List A → Bool
is_empty [] = true
is_empty (x ∷ xs) = false

-- `scheduleNoLock`: the queue, and whether a thread is to be tickled.
unfoldable pub schedule_no_lock : FiberAndThread → List FiberAndThread → List FiberAndThread × Bool
schedule_no_lock t q = ((if is_task t then q ++ (t ∷ []) else q), is_empty q)

-- `schedule` of an array of fibers.
abbrev pub schedule_all : List ℕ → List FiberAndThread → Bool → List FiberAndThread × Bool
schedule_all [] q need = (q, need)
schedule_all (h ∷ hs) q need =
    let r = schedule_no_lock (record { fiber = some h; cb = none; thread = negsuc 0 }) q in
    schedule_all hs r.0 (r.1 || need)

-- `it->thread != -1 && it->thread != GetThreadId()`.
abbrev pub is_elsewhere : ℤ → ℕ → Bool
is_elsewhere (negsuc zero) tid = false
is_elsewhere (negsuc (suc n)) tid = true
is_elsewhere (pos n) tid = not (n == tid)

abbrev pub state_is_exec : Option Fiber → Bool
state_is_exec none = false
state_is_exec (some f) = is_exec f.state

-- `it->fiber && it->fiber->getState() == Fiber::EXEC`.
abbrev pub runs_now : Option ℕ → Fibers → Bool
runs_now none fs = false
runs_now (some h) fs = state_is_exec (get_elem? fs h)

abbrev pub Picked : Type 0
Picked = Option FiberAndThread × (List FiberAndThread × Bool)

abbrev pub behind : FiberAndThread → Picked → Picked
behind t r = (r.0, (t ∷ r.1.0, r.1.1))

abbrev pub tickled : Picked → Picked
tickled r = (r.0, (r.1.0, true))

-- The loop over `m_fibers` under the lock: the task taken, the queue left and `tickle_me`.
unfoldable pub pick : Fibers → ℕ → List FiberAndThread → Result Picked
pick fs tid [] = ok (none, ([], false))
pick fs tid (t ∷ q) =
    let rest = pick fs tid q in
    if is_elsewhere t.thread tid
    then (rest >>= λ r. ok (tickled (behind t r)))
    else if not (is_task t)
    then err failed_assertion
    else if runs_now t.fiber fs
    then (rest >>= λ r. ok (behind t r))
    else ok (some t, (q, false))
