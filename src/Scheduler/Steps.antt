-- ===== src/Scheduler/Steps.antt =====
-- The count of active threads of myhttp/scheduler.cpp, step by step.
use mathlib.Core.Path.{transport}
use http_practice.Prelude.{
  ℕ, ◌+◌, ◌≡◌, refl, ap, sym, true, not, ◌&&◌, ◌||◌, List, [], ◌∷◌, ◌++◌, Option, none, some, arith,
  if◌then◌else◌, get_elem?, set, length, inl, inr, Bool-cases, Option-cases,
}
use http_practice.Prelude.Results.{ok, ◌>>=◌, After, After-bind, After-at}
use http_practice.Scheduler.Fiber.{
  Fiber, is_over, is_ready, is_term, has_cb, reset, swap_in, Outcome, given_back, new_fiber,
}
use http_practice.Scheduler.Queue.{Fibers, FiberAndThread, no_task, is_task, Picked, pick}
use http_practice.Scheduler.Run.{
  Phase, choosing, picked, in_fiber, in_cb, in_idle, requeues_fiber, requeues_cb, finished, Worker,
  Scheduler, inc, dec, handle, held_back, less_active, schedule_fiber, stop_begin, schedule,
  set_worker, set_fiber, fiber_at, took, pick_step, enter, begin_idle, idle_branch, cb_branch,
  no_fiber_branch, fiber_branch, begin_task, begin_step, after_fiber, after_cb, after_idle,
  return_step, requeue_step,
}
use http_practice.Scheduler.Counting.{
  has_task, is_wasted, wasted, Reach, Counts, count_inc, count_same, count_dec, SoundPick,
  pick-SoundPick, initially, schedules, stops, picks, begins, returned, requeues,
}

module _ (m : Scheduler) (i : ℕ) (w : Worker) (n : ℕ) (e : get_elem? m.workers i ≡ some w)
    (h : Counts n m) where
  took-Counts :
      (r : Picked)
      → w.phase ≡ choosing
      → ((t : FiberAndThread) → r.0 ≡ some t → is_task t ≡ true)
      → Counts n (took i w m r)
  took-Counts (none, (q, b)) p valid =
      count_same m.workers i w (record w { phase = picked; ft = no_task }) m.active_thread_count n n
        e h (rw p refl)
  took-Counts (some t, (q, b)) p valid =
      count_inc m.workers i w (record w { phase = picked; ft = t }) m.active_thread_count n e h
        (rw (p, valid t refl) refl)

  pick_step-After : w.phase ≡ choosing → After (Counts n) (pick_step i w m)
  unfolding pick_step
  pick_step-After p =
      After-bind (Counts n) (pick m.fibers w.tid m.tasks) (λ r. ok (took i w m r))
        (λ r q.
          took-Counts r p (transport (ap SoundPick q) (pick-SoundPick m.fibers w.tid m.tasks)))

  enter-After :
      (v : Worker) (f : Fiber) (j : ℕ) (fs : Fibers) (idle n' : ℕ)
      → has_task v.phase v.ft + n' ≡ has_task w.phase w.ft + n
      → After (Counts n') (enter i v f j (record m { fibers = fs; idle_thread_count = idle }))
  enter-After v f j fs idle n' k =
      After-bind (Counts n') (swap_in f)
        (λ g.
          ok (set_worker i v (set_fiber j g (record m { fibers = fs; idle_thread_count = idle }))))
        (λ g q. count_same m.workers i w v m.active_thread_count n n' e h k)

  idle_branch-After :
      (n' : ℕ) → n' ≡ has_task w.phase w.ft + n → After (Counts n') (idle_branch i w m)
  unfolding idle_branch
  idle_branch-After n' k =
      After-bind (Counts n') (fiber_at (get_elem? m.fibers w.idle_fiber)) (λ f. begin_idle i w f m)
        (λ f q. elim (Bool-cases (is_term f.state)) [
          | inl x ↦ rw x (
              count_same m.workers i w (record w { phase = finished }) m.active_thread_count n n' e
                h (omega (arith, k)))
          | inr x ↦ rw x (
              enter-After (record w { phase = in_idle }) f w.idle_fiber m.fibers
                (inc m.idle_thread_count) n' (omega (arith, k)))
        ])

  cb_branch-After :
      (c : Option ℕ) → has_task w.phase w.ft ≡ 1 → After (Counts n) (cb_branch i w c m)
  cb_branch-After none k =
      enter-After (record w { phase = in_cb; ft = no_task; cb_fiber = some (length m.fibers) })
        (new_fiber w.ft.cb) (length m.fibers) (m.fibers ++ (new_fiber w.ft.cb ∷ []))
        m.idle_thread_count n (omega (arith, k))
  cb_branch-After (some c) k =
      After-bind (Counts n) (fiber_at (get_elem? m.fibers c))
        (λ f. reset w.ft.cb f >>= λ g. enter i (record w { phase = in_cb; ft = no_task }) g c m)
        (λ f q.
          After-bind (Counts n) (reset w.ft.cb f)
            (λ g. enter i (record w { phase = in_cb; ft = no_task }) g c m)
            (λ g r.
              enter-After (record w { phase = in_cb; ft = no_task }) g c m.fibers
                m.idle_thread_count n (omega (arith, k))))

  no_fiber_branch-After :
      (c : Option ℕ) (n' : ℕ)
      → has_task w.phase w.ft + n ≡ (if has_cb c then 1 + n else n')
      → (has_cb c ≡ true → n' ≡ n)
      → After (Counts n') (no_fiber_branch i w c m)
  no_fiber_branch-After none n' k l = idle_branch-After n' (sym k)
  no_fiber_branch-After (some c) n' k l =
      rw (l refl) (cb_branch-After w.cb_fiber (omega (arith, k)))

  begin_over-After :
      (j : ℕ) (f : Fiber)
      → has_task w.phase w.ft ≡ 1
      → After
          (Counts (n + (if is_over f.state && not (has_cb w.ft.cb) then 1 else 0)))
          (fiber_branch i w j f m)
  begin_over-After j f k = elim (Bool-cases (is_over f.state)) [
    | inl x ↦ rw x (
        no_fiber_branch-After w.ft.cb (n + (if not (has_cb w.ft.cb) then 1 else 0))
          (ground (arith, k)) (λ y. ground (arith, y)))
    | inr x ↦ rw x (
        enter-After (record w { phase = in_fiber }) f j m.fibers m.idle_thread_count (n + 0)
          (omega (arith, k)))
  ]

  begin_task-After :
      (fo : Option ℕ)
      → has_task w.phase w.ft ≡ (if has_cb fo || has_cb w.ft.cb then 1 else 0)
      → After (Counts (n + (if is_wasted fo w.ft.cb m.fibers then 1 else 0))) (begin_task i w fo m)
  begin_task-After none k =
      no_fiber_branch-After w.ft.cb (n + 0) (ground (arith, k)) (λ x. omega arith)
  begin_task-After (some j) k = elim (Option-cases (get_elem? m.fibers j)) [
    | inl q ↦ rw q tt
    | inr (f, q) ↦ rw q (begin_over-After j f k)
  ]

  begin_step-After : w.phase ≡ picked → After (Counts (n + wasted w m)) (begin_step i w m)
  unfolding begin_step
  begin_step-After p = begin_task-After w.ft.fiber (ap (λ (t : Phase). has_task t w.ft) p)

  settled :
      (v : Worker) (fs : Fibers) (q : List FiberAndThread)
      → has_task w.phase w.ft ≡ 1
      → has_task v.phase v.ft ≡ 0
      → Counts n (set_worker i v (less_active (record m { fibers = fs; tasks = q })))
  settled v fs q k l = count_dec m.workers i w v m.active_thread_count n e h (omega (arith, k, l))

  kept :
      (v : Worker) (fs : Fibers) (q : List FiberAndThread) (idle : ℕ)
      → has_task w.phase w.ft ≡ 0
      → has_task v.phase v.ft ≡ 0
      → Counts n (set_worker i v (record m { fibers = fs; tasks = q; idle_thread_count = idle }))
  kept v fs q idle k l =
      count_same m.workers i w v m.active_thread_count n n e h (omega (arith, k, l))

  after_fiber-Counts :
      (j : ℕ) (f : Fiber) → has_task w.phase w.ft ≡ 1 → Counts n (after_fiber i w j f m)
  after_fiber-Counts j f k = elim (Bool-cases (is_ready f.state)) [
    | inl x ↦ rw x (settled (record w { phase = requeues_fiber }) (set m.fibers j f) m.tasks k refl)
    | inr x ↦ rw x (
        settled (record w { phase = choosing; ft = no_task }) (set m.fibers j (held_back f)) m.tasks
          k refl)
  ]

  after_cb-After :
      (j : ℕ) (f : Fiber) → has_task w.phase w.ft ≡ 1 → After (Counts n) (after_cb i w j f m)
  after_cb-After j f k = elim (Bool-cases (is_ready f.state)) [
    | inl x ↦ rw x (settled (record w { phase = requeues_cb }) (set m.fibers j f) m.tasks k refl)
    | inr x ↦ elim (Bool-cases (is_over f.state)) [
      | inl y ↦
          rw (x, y)
            (After-bind (Counts n) (reset none f)
              (λ g.
                ok (set_worker i (record w { phase = choosing }) (set_fiber j g (less_active m))))
              (λ g q. settled (record w { phase = choosing }) (set m.fibers j g) m.tasks k refl))
      | inr y ↦
          rw (x, y)
            (settled (record w { phase = choosing; cb_fiber = none }) (set m.fibers j (held_back f))
              m.tasks k refl)
    ]
  ]

  return_step-After :
      (ph : Phase) (o : Outcome) → w.phase ≡ ph → After (Counts n) (return_step i w o m)
  unfolding return_step
  return_step-After in_fiber o p = rw p (
      After-bind (Counts n) (handle w.ft.fiber)
        (λ j. fiber_at (get_elem? m.fibers j) >>= λ f. ok (after_fiber i w j (given_back o f) m))
        (λ j q.
          After-bind (Counts n) (fiber_at (get_elem? m.fibers j))
            (λ f. ok (after_fiber i w j (given_back o f) m))
            (λ f r. after_fiber-Counts j (given_back o f) (rw p refl))))
  return_step-After in_cb o p = rw p (
      After-bind (Counts n) (handle w.cb_fiber)
        (λ j. fiber_at (get_elem? m.fibers j) >>= λ f. after_cb i w j (given_back o f) m)
        (λ j q.
          After-bind (Counts n) (fiber_at (get_elem? m.fibers j))
            (λ f. after_cb i w j (given_back o f) m)
            (λ f r. after_cb-After j (given_back o f) (rw p refl))))
  return_step-After in_idle o p = rw p (
      After-bind (Counts n) (fiber_at (get_elem? m.fibers w.idle_fiber))
        (λ f. ok (after_idle i w (given_back o f) m))
        (λ f q.
          kept (record w { phase = choosing })
            (set m.fibers w.idle_fiber (held_back (given_back o f))) m.tasks
            (dec m.idle_thread_count) (rw p refl) refl))
  return_step-After choosing o p = rw p h
  return_step-After picked o p = rw p h
  return_step-After requeues_fiber o p = rw p h
  return_step-After requeues_cb o p = rw p h
  return_step-After finished o p = rw p h

  requeue_step-After : (ph : Phase) → w.phase ≡ ph → After (Counts n) (requeue_step i w m)
  unfolding requeue_step schedule
  requeue_step-After requeues_fiber p = rw p (
      After-bind (Counts n) (handle w.ft.fiber)
        (λ j. ok (set_worker i (record w { phase = choosing; ft = no_task }) (schedule_fiber j m)))
        (λ j q.
          kept (record w { phase = choosing; ft = no_task }) m.fibers (schedule_fiber j m).tasks
            m.idle_thread_count (rw p refl) refl))
  requeue_step-After requeues_cb p = rw p (
      After-bind (Counts n) (handle w.cb_fiber)
        (λ j.
          ok (set_worker i (record w { phase = choosing; cb_fiber = none }) (schedule_fiber j m)))
        (λ j q.
          kept (record w { phase = choosing; cb_fiber = none }) m.fibers (schedule_fiber j m).tasks
            m.idle_thread_count (rw p refl) refl))
  requeue_step-After in_fiber p = rw p h
  requeue_step-After in_cb p = rw p h
  requeue_step-After in_idle p = rw p h
  requeue_step-After choosing p = rw p h
  requeue_step-After picked p = rw p h
  requeue_step-After finished p = rw p h

stop_begin-Counts : (m : Scheduler) (n : ℕ) → Counts n m → Counts n (stop_begin m)
unfolding stop_begin
stop_begin-Counts m n h = h

schedule-Counts :
    (t : FiberAndThread) (m : Scheduler) (n : ℕ) → Counts n m → Counts n (schedule t m)
unfolding schedule
schedule-Counts t m n h = h

-- The counter of working threads, over any steps.
pub Reach-Counts : (s m : Scheduler) (n : ℕ) → Counts 0 s → Reach s m n → Counts n m
Reach-Counts s m n c initially = c
Reach-Counts s m n c (schedules {m = m0} r t) = schedule-Counts t m0 n (Reach-Counts s m0 n c r)
Reach-Counts s m n c (stops {m = m0} r) = stop_begin-Counts m0 n (Reach-Counts s m0 n c r)
Reach-Counts s m n c (picks {m = m0} r i w e p run) =
    After-at (Counts n) (pick_step i w m0) m
      (pick_step-After m0 i w n e (Reach-Counts s m0 n c r) p) run
Reach-Counts s m n' c (begins {m = m0} {n} r i w e p run) =
    After-at (Counts (n + wasted w m0)) (begin_step i w m0) m
      (begin_step-After m0 i w n e (Reach-Counts s m0 n c r) p) run
Reach-Counts s m n c (returned {m = m0} r i w o e run) =
    After-at (Counts n) (return_step i w o m0) m
      (return_step-After m0 i w n e (Reach-Counts s m0 n c r) w.phase o refl) run
Reach-Counts s m n c (requeues {m = m0} r i w e run) =
    After-at (Counts n) (requeue_step i w m0) m
      (requeue_step-After m0 i w n e (Reach-Counts s m0 n c r) w.phase refl) run
