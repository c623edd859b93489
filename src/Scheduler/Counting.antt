-- ===== src/Scheduler/Counting.antt =====
-- `m_activeThreadCount` of myhttp/scheduler.cpp over the steps of all threads, and `stopping`.
use http_practice.Prelude.{
  ℕ, zero, suc, ◌+◌, ◌%◌, ◌^◌, ◌≡◌, refl, ap, sym, ◌∙◌, Bool, true, false, not, ◌&&◌, List, [], ◌∷◌,
  Option, none, some, arith, if◌then◌else◌, get_elem?, set, inl, inr, Bool-cases,
}
use http_practice.Prelude.Results.{Result, ok, err, ◌>>=◌}
use http_practice.Scheduler.Fiber.{Fiber, is_over, has_cb, Outcome}
use http_practice.Scheduler.Queue.{
  Fibers, FiberAndThread, is_task, Picked, pick, is_elsewhere, runs_now, tickled, behind,
}
use http_practice.Scheduler.Run.{
  Phase, choosing, picked, in_fiber, in_cb, Worker, Scheduler, inc, dec, stop_begin, schedule,
  pick_step, begin_step, return_step, requeue_step,
}

-- A thread that has a task, from its pick to the end of its swapIn.
abbrev pub has_task : Phase → FiberAndThread → ℕ
has_task picked t = if is_task t then 1 else 0
has_task in_fiber t = 1
has_task in_cb t = 1
has_task _ t = 0

abbrev pub busy : List Worker → ℕ
busy [] = 0
busy (w ∷ ws) = has_task w.phase w.ft + busy ws

abbrev pub over_at : Option Fiber → Bool
over_at none = false
over_at (some f) = is_over f.state

-- The picked task is a fiber that is over: `run` then turns to the idle fiber.
abbrev pub is_wasted : Option ℕ → Option ℕ → Fibers → Bool
is_wasted none cb fs = false
is_wasted (some h) cb fs = over_at (get_elem? fs h) && not (has_cb cb)

abbrev pub wasted : Worker → Scheduler → ℕ
wasted w s = if is_wasted w.ft.fiber w.ft.cb s.fibers then 1 else 0

-- From the state `s`, the threads and the callers of `schedule` and `stop` reach the second state,
-- with so many fibers picked that were over.
pub data Reach (s : Scheduler) : Scheduler → ℕ → Type 0 where
  initially : Reach s s 0
  schedules :
      {m : Scheduler} {n : ℕ} → Reach s m n → (t : FiberAndThread) → Reach s (schedule t m) n
  stops : {m : Scheduler} {n : ℕ} → Reach s m n → Reach s (stop_begin m) n
  picks :
      {m m' : Scheduler} {n : ℕ}
      → Reach s m n
      → (i : ℕ) (w : Worker) → get_elem? m.workers i ≡ some w
      → w.phase ≡ choosing
      → pick_step i w m ≡ ok m'
      → Reach s m' n
  begins :
      {m m' : Scheduler} {n : ℕ}
      → Reach s m n
      → (i : ℕ) (w : Worker) → get_elem? m.workers i ≡ some w
      → w.phase ≡ picked
      → begin_step i w m ≡ ok m'
      → Reach s m' (n + wasted w m)
  returned :
      {m m' : Scheduler} {n : ℕ}
      → Reach s m n
      → (i : ℕ) (w : Worker) (o : Outcome) → get_elem? m.workers i ≡ some w
      → return_step i w o m ≡ ok m'
      → Reach s m' n
  requeues :
      {m m' : Scheduler} {n : ℕ}
      → Reach s m n
      → (i : ℕ) (w : Worker) → get_elem? m.workers i ≡ some w
      → requeue_step i w m ≡ ok m'
      → Reach s m' n

busy-set :
    (ws : List Worker) (i : ℕ) (w v : Worker)
    → get_elem? ws i ≡ some w
    → busy (set ws i v) + has_task w.phase w.ft ≡ busy ws + has_task v.phase v.ft
busy-set [] i w v e = absurd (ground (arith, e))
busy-set (x ∷ ws) zero w v e = omega (
  arith,
  ap {B = ℕ} (λ (o : Option Worker). elim o [ none ↦ 0 | some y ↦ has_task y.phase y.ft ]) e,
)
busy-set (x ∷ ws) (suc i) w v e = omega (arith, busy-set ws i w v e)

-- The counter is the threads with a task, and the fibers wasted.
abbrev pub Counts : ℕ → Scheduler → Type 0
Counts n s = s.active_thread_count ≡ (busy s.workers + n) % 2 ^ 64

-- The counter after a thread took a task, kept it or gave it back.
pub count_inc :
    (ws : List Worker) (i : ℕ) (w v : Worker) (a n : ℕ)
    → get_elem? ws i ≡ some w
    → a ≡ (busy ws + n) % 2 ^ 64
    → has_task v.phase v.ft ≡ has_task w.phase w.ft + 1
    → inc a ≡ (busy (set ws i v) + n) % 2 ^ 64
count_inc ws i w v a n e h k = omega (arith, busy-set ws i w v e, h, k)

pub count_same :
    (ws : List Worker) (i : ℕ) (w v : Worker) (a n n' : ℕ)
    → get_elem? ws i ≡ some w
    → a ≡ (busy ws + n) % 2 ^ 64
    → has_task v.phase v.ft + n' ≡ has_task w.phase w.ft + n
    → a ≡ (busy (set ws i v) + n') % 2 ^ 64
count_same ws i w v a n n' e h k = omega (arith, busy-set ws i w v e, h, k)

pub count_dec :
    (ws : List Worker) (i : ℕ) (w v : Worker) (a n : ℕ)
    → get_elem? ws i ≡ some w
    → a ≡ (busy ws + n) % 2 ^ 64
    → has_task v.phase v.ft + 1 ≡ has_task w.phase w.ft
    → dec a ≡ (busy (set ws i v) + n) % 2 ^ 64
count_dec ws i w v a n e h k = omega (arith, busy-set ws i w v e, h, k)

-- A task that is picked is one.
abbrev pub SoundPick : Result Picked → Type 0
SoundPick (ok r) = (t : FiberAndThread) → r.0 ≡ some t → is_task t ≡ true
SoundPick (err f) = Unit {0}

SoundPick-map :
    (r : Result Picked) (f : Picked → Picked)
    → ((x : Picked) → (f x).0 ≡ x.0)
    → SoundPick r
    → SoundPick (r >>= λ x. ok (f x))
SoundPick-map (ok x) f k h = λ t e. h t (sym (k x) ∙ e)
SoundPick-map (err x) f k h = tt

pub pick-SoundPick : (fs : Fibers) (tid : ℕ) (q : List FiberAndThread) → SoundPick (pick fs tid q)
unfolding pick
pick-SoundPick fs tid [] = λ t e. absurd (ground (arith, e))
pick-SoundPick fs tid (t ∷ q) = elim (Bool-cases (is_elsewhere t.thread tid)) [
  | inl x ↦ rw x (
      SoundPick-map (pick fs tid q) (λ r. tickled (behind t r)) (λ r. refl)
        (pick-SoundPick fs tid q))
  | inr x ↦ elim (Bool-cases (is_task t)) [
    | inr y ↦ rw (x, y) tt
    | inl y ↦ elim (Bool-cases (runs_now t.fiber fs)) [
      | inl z ↦
          rw (x, y, z)
            (SoundPick-map (pick fs tid q) (behind t) (λ r. refl) (pick-SoundPick fs tid q))
      | inr z ↦
          rw (x, y, z)
            (λ u k.
              ap (λ (o : Option FiberAndThread). elim o [ none ↦ true | some v ↦ is_task v ])
                (sym k)
              ∙ y)
    ]
  ]
]
