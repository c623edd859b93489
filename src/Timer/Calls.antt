-- ===== src/Timer/Calls.antt =====
-- Sequences of calls of the timers of myhttp/timer.cpp, in any order.
use http_practice.Prelude.{
  ℕ, ◌≡◌, refl, Bool, false, List, [], ◌∷◌, Option, arith, Option-cases, inl, inr, ◌⊎◌,
}
use http_practice.Prelude.Results.{Result, ok, ◌>>=◌, Returns}
use http_practice.Timer.Order.{Callback, Timer}
use http_practice.Timer.Manager.{
  TimerManager, add_timer, cancel, refresh, reset, get_next_timer, list_expired_cb,
}
use http_practice.Timer.Sorted.{elem}
use http_practice.Timer.Invariant.{IsValid, add_timer-IsValid, cancel-Cancelled}
use http_practice.Timer.Reschedule.{refresh-Rescheduled, reset-Rescheduled, KeepsTime}
use http_practice.Timer.Poll.{list_expired_cb-Expired}

-- A call with its time; `adds` and `polls` have the address of the timer that they create.
pub data Call : Type 0 where
  adds : ℕ → ℕ → Option Callback → Bool → ℕ → Call
  cancels : ℕ → Call
  refreshes : ℕ → ℕ → Call
  resets : ℕ → ℕ → ℕ → Bool → Call
  waits : ℕ → Call
  polls : ℕ → ℕ → Call

abbrev pub call : Call → TimerManager → Result TimerManager
call (adds now ms cb recurring a) m = ok (add_timer now ms cb recurring a m)
call (cancels a) m = cancel a m >>= λ r. ok r.1
call (refreshes now a) m = ok (refresh now a m).1
call (resets now a ms from_now) m = ok (reset now a ms from_now m).1
call (waits now) m = ok (get_next_timer now m).1
call (polls now p) m = list_expired_cb now p m >>= λ r. ok r.1

abbrev pub calls_all : List Call → TimerManager → Result TimerManager
calls_all [] m = ok m
calls_all (c ∷ cs) m = call c m >>= calls_all cs

-- `new` gives the address of no timer in the set.
abbrev pub IsFresh : Call → TimerManager → Type 0
IsFresh (adds now ms cb recurring a) m = elem a m.timers ≡ false
IsFresh (polls now p) m = elem p m.timers ≡ false
IsFresh _ m = Unit {0}

abbrev pub AllFresh : List Call → TimerManager → Type 0
AllFresh [] m = Unit {0}
AllFresh (c ∷ cs) m = IsFresh c m × ((m' : TimerManager) → call c m ≡ ok m' → AllFresh cs m')

KeepsTime-cases :
    (ms : ℕ) (from_now : Bool) (t : Timer) → KeepsTime ms from_now t ⊎ (¬ KeepsTime ms from_now t)
KeepsTime-cases ms from_now t = ground arith

pub call-IsValid :
    (c : Call) (m : TimerManager) → IsFresh c m → IsValid m → Returns (call c m) IsValid
unfolding get_next_timer
call-IsValid (adds now ms cb recurring a) m f v =
    (add_timer now ms cb recurring a m, refl, add_timer-IsValid now ms cb recurring a m f v)
call-IsValid (cancels a) m f v = elim (Option-cases (m.heap a).cb) [
  | inl e ↦ (m, rw ((cancel-Cancelled a m v).0 e) refl, v)
  | inr (g, e) ↦ let (r, run, w) = (cancel-Cancelled a m v).1 g e in (r.1, rw run refl, w.valid)
]
call-IsValid (refreshes now a) m f v = (
  (refresh now a m).1,
  refl,
  elim (Option-cases (m.heap a).cb) [
    | inl e ↦ rw ((refresh-Rescheduled now a m v).0 e) v
    | inr (g, e) ↦ ((refresh-Rescheduled now a m v).1 g e).valid
  ],
)
call-IsValid (resets now a ms from_now) m f v = (
  (reset now a ms from_now m).1,
  refl,
  let (same, idle, moved) = reset-Rescheduled now a ms from_now m v in
      elim (KeepsTime-cases ms from_now (m.heap a)) [
        | inl k ↦ rw (same k) v
        | inr k ↦ elim (Option-cases (m.heap a).cb) [
          | inl e ↦ rw (idle k e) v
          | inr (g, e) ↦ (moved k g e).valid
        ]
      ],
)
call-IsValid (waits now) m f v =
    (record m { tickled = false }, refl, record { sorted = v.sorted; armed = v.armed })
call-IsValid (polls now p) m f v =
    let (r, run, w) = list_expired_cb-Expired now p m f v in (r.1, rw run refl, w.valid)

-- Any sequence of addTimer, cancel, refresh, reset, getNextTimer and listExpiredCb calls from
-- a valid manager, where each timer that is created has the address of no timer in the set,
-- ends normally in a valid manager: in order, and with every timer that has a callback in the
-- set.
pub calls_all-IsValid :
    (cs : List Call) (m : TimerManager)
    → AllFresh cs m
    → IsValid m
    → Returns (calls_all cs m) IsValid
calls_all-IsValid [] m f v = (m, refl, v)
calls_all-IsValid (c ∷ cs) m f v =
    let (m', run, v') = call-IsValid c m f.0 v in
    let (m'', run', w) = calls_all-IsValid cs m' (f.1 m' run) v' in (m'', rw run run', w)
