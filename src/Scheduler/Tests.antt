-- ===== src/Scheduler/Tests.antt =====
-- The scheduler of myhttp/scheduler.cpp on concrete tasks.
use http_practice.Prelude.{
  ℕ, ◌+◌, ◌==◌, ◌&&◌, ◌≡◌, refl, true, false, List, [], ◌∷◌, none, some, arith,
}
use http_practice.Prelude.Int.{ℤ, pos, negsuc}
use http_practice.Prelude.Results.{ok, err, failed_assertion, Returns, ◌>>=◌}
use http_practice.Scheduler.Fiber.{
  new_fiber, main_fiber, destroyed, swap_in, given_back, returns, to_hold, term, exec,
}
use http_practice.Scheduler.Queue.{FiberAndThread, no_task, pick, is_empty, Fibers}
use http_practice.Scheduler.Picking.{IsPick, pick-IsPick}
use http_practice.Scheduler.Run.{
  Scheduler, Worker, stopping, pick_step, begin_step, return_step, idle_branch, choosing, picked,
  in_fiber, in_idle,
}
use http_practice.Scheduler.Counting.{Reach, initially, picks, begins, returned, busy}
use http_practice.Scheduler.Stopping.{stopping-quiet}

abbrev of_fiber : ℕ → ℤ → FiberAndThread
of_fiber h thread = record { fiber = some h; cb = none; thread = thread }

abbrev some_tasks : List FiberAndThread
some_tasks = of_fiber 0 (pos 7) ∷ of_fiber 1 (negsuc 0) ∷ of_fiber 2 (pos 3) ∷ []

abbrev some_fibers : Fibers
some_fibers = new_fiber (some 4) ∷ main_fiber ∷ new_fiber (some 5) ∷ []

-- The task of thread 7 and the fiber that runs are passed.
picked_third :
    pick some_fibers 3 some_tasks
    ≡ ok (some (of_fiber 2 (pos 3)), ((of_fiber 0 (pos 7) ∷ of_fiber 1 (negsuc 0) ∷ []), true))
unfolding pick
picked_third = refl

pick-IsPick_example : Returns (pick some_fibers 3 some_tasks) (IsPick some_fibers 3 some_tasks)
pick-IsPick_example = pick-IsPick some_fibers 3 some_tasks (refl, (refl, (refl, tt)))

-- A fiber that is on hold must not be destroyed.
hold_destroyed : destroyed (given_back to_hold (new_fiber (some 4))) ≡ err failed_assertion
unfolding given_back
hold_destroyed = refl

-- Two fibers wait, one of them twice, for one thread.
abbrev a_worker : Worker
a_worker = record { tid = 3; phase = choosing; ft = no_task; cb_fiber = none; idle_fiber = 1 }

abbrev one_thread : Scheduler
one_thread = record {
  tasks = of_fiber 2 (negsuc 0) ∷ of_fiber 2 (negsuc 0) ∷ [];
  fibers = main_fiber ∷ new_fiber (some 0) ∷ new_fiber (some 5) ∷ [];
  workers = a_worker ∷ [];
  active_thread_count = 0;
  idle_thread_count = 0;
  stopping_flag = true;
  auto_stop = true;
}

abbrev held : Worker
held = record a_worker { phase = picked; ft = of_fiber 2 (negsuc 0) }

abbrev running : Worker
running = record held { phase = in_fiber }

abbrev after_first : Scheduler
after_first = record one_thread {
  tasks = of_fiber 2 (negsuc 0) ∷ [];
  fibers = main_fiber ∷ new_fiber (some 0) ∷ record (new_fiber none) { state = term } ∷ [];
}

first_run :
    (pick_step 0 a_worker one_thread >>= begin_step 0 held >>= return_step 0 running returns)
    ≡ ok after_first
unfolding pick_step begin_step return_step pick swap_in given_back
first_run = refl

abbrev first_held : Scheduler
first_held = record one_thread {
  tasks = of_fiber 2 (negsuc 0) ∷ [];
  workers = held ∷ [];
  active_thread_count = 1;
}

abbrev first_running : Scheduler
first_running = record first_held {
  fibers = main_fiber ∷ new_fiber (some 0) ∷ record (new_fiber (some 5)) { state = exec } ∷ [];
  workers = running ∷ [];
}

abbrev second_held : Scheduler
second_held = record after_first { tasks = []; workers = held ∷ []; active_thread_count = 1 }

abbrev idling : Worker
idling = record held { phase = in_idle }

-- The second task is a fiber that is over: the thread idles, and the counter stays at 1.
abbrev wasted_one : Scheduler
wasted_one = record second_held {
  fibers =
      main_fiber
      ∷ record (new_fiber (some 0)) { state = exec }
      ∷ record (new_fiber none) { state = term }
      ∷ [];
  workers = idling ∷ [];
  idle_thread_count = 1;
}

second_picked : Reach one_thread second_held 0
unfolding pick_step begin_step return_step pick swap_in given_back
second_picked =
    picks
      (returned
        (begins {m = first_held} {m' = first_running}
          (picks {m' = first_held} initially 0 a_worker refl refl refl) 0 held refl refl refl)
        0 running returns refl refl)
      0 a_worker refl refl refl

wasted_reached : Reach one_thread wasted_one 1
unfolding pick_step begin_step return_step pick swap_in given_back idle_branch
wasted_reached = begins second_picked 0 held refl refl refl

stopping-quiet_example :
    stopping wasted_one
    ≡ (true && (true && (is_empty wasted_one.tasks && (busy wasted_one.workers + 1 == 0))))
stopping-quiet_example = stopping-quiet one_thread wasted_one 1 refl wasted_reached (omega arith)

never_stops : stopping wasted_one ≡ false
unfolding stopping
never_stops = refl
