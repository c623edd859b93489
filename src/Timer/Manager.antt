-- ===== src/Timer/Manager.antt =====
-- `Timer` and `TimerManager` of myhttp/timer.cpp, one call at a time under the manager's lock.
-- The clock, `GetCurrentMS`, and the address of a `new Timer` are arguments. Times are
-- `uint64_t`s: sums and differences wrap.
use http_practice.Prelude.{
  ℕ, ◌+◌, ◌-◌, ◌%◌, ◌^◌, Bool, true, false, ◌&&◌, ◌||◌, not, List, [], ◌∷◌, Option, none, some,
  length, take, drop, ltb, leb, ◌==◌, if◌then◌else◌,
}
use http_practice.Prelude.Results.{Result, ok, err, out_of_bounds, ◌>>=◌}
use http_practice.Timer.Order.{
  Callback, calls, on_timer, Timer, Heap, update, insert, found, erase, upper_bound,
}

abbrev pub add64 : ℕ → ℕ → ℕ
add64 a b = (a + b) % 2 ^ 64

abbrev pub sub64 : ℕ → ℕ → ℕ
sub64 a b = ((a + 2 ^ 64) - b) % 2 ^ 64

-- `wakeups` counts the calls of `onTimerInsertedAtFront`.
pub record TimerManager : Type 0 where
  pub heap : Heap
  pub timers : List ℕ
  pub tickled : Bool
  pub previous_time : ℕ
  pub wakeups : ℕ

-- A timer that no one holds: `Timer(uint64_t next)`.
abbrev pub timer_at : ℕ → Timer
timer_at next = record { recurring = false; ms = 0; next = next; cb = none }

abbrev pub new_timer : ℕ → ℕ → Option Callback → Bool → Timer
new_timer now ms cb recurring = record {
  recurring = recurring;
  ms = ms;
  next = add64 now ms;
  cb = cb;
}

abbrev pub new_manager : ℕ → TimerManager
new_manager now = record {
  heap = λ a. timer_at 0;
  timers = [];
  tickled = false;
  previous_time = now;
  wakeups = 0;
}

abbrev pub has_timer : TimerManager → Bool
has_timer m = not (length m.timers == 0)

abbrev pub is_first : ℕ → List ℕ → Bool
is_first a [] = false
is_first a (x ∷ xs) = a == x

-- `addTimer(val, lock)`, where the timer's fields are in the heap already.
unfoldable pub add : ℕ → TimerManager → TimerManager
add a m =
    let timers = insert m.heap a m.timers in
    let at_front = is_first a timers && not m.tickled in
    record m {
      timers = timers;
      tickled = m.tickled || at_front;
      wakeups = if at_front then m.wakeups + 1 else m.wakeups;
    }

abbrev pub put : ℕ → Timer → TimerManager → TimerManager
put a t m = record m { heap = update m.heap a t }

-- `addTimer(ms, cb, recurring)`; the new timer is at `a`.
unfoldable pub add_timer : ℕ → ℕ → Option Callback → Bool → ℕ → TimerManager → TimerManager
add_timer now ms cb recurring a m = add a (put a (new_timer now ms cb recurring) m)

-- `addConditiaonTimer` binds the condition and the callback; an empty callback is bound as well.
abbrev pub add_condition_timer : ℕ → ℕ → ℕ → ℕ → Bool → ℕ → TimerManager → TimerManager
add_condition_timer now ms cb weak_cond recurring a m =
    add_timer now ms (some (on_timer weak_cond cb)) recurring a m

-- The callbacks that a call of `cb` runs, where `alive` tells which conditions can be locked.
abbrev pub run_callback : (ℕ → Bool) → Callback → List ℕ
run_callback alive (calls f) = f ∷ []
run_callback alive (on_timer weak_cond f) = if alive weak_cond then f ∷ [] else []

-- `m_timers.erase(it)`, which is undefined where `find` gave `end()`.
abbrev pub erase_found : ℕ → TimerManager → Result TimerManager
erase_found a m =
    if found m.heap a m.timers
    then ok (record m { timers = erase m.heap a m.timers })
    else err out_of_bounds

unfoldable pub cancel : ℕ → TimerManager → Result (Bool × TimerManager)
cancel a m = elim (m.heap a).cb [
  | none ↦ ok (false, m)
  | some f ↦ (erase_found a (put a (record (m.heap a) { cb = none }) m) >>= λ m'. ok (true, m'))
]

-- The guards that `refresh` and `reset` share: the timer has a callback and is in the set.
abbrev pub is_armed : ℕ → TimerManager → Bool
is_armed a m = elim (m.heap a).cb [ none ↦ false | some f ↦ found m.heap a m.timers ]

abbrev pub taken_out : ℕ → TimerManager → TimerManager
taken_out a m = record m { timers = erase m.heap a m.timers }

unfoldable pub refresh : ℕ → ℕ → TimerManager → Bool × TimerManager
refresh now a m =
    let t = record (m.heap a) { next = add64 now (m.heap a).ms } in
    let m' = put a t (taken_out a m) in
    if is_armed a m then (true, record m' { timers = insert m'.heap a m'.timers }) else (false, m)

unfoldable pub reset : ℕ → ℕ → ℕ → Bool → TimerManager → Bool × TimerManager
reset now a ms from_now m =
    let start = if from_now then now else sub64 (m.heap a).next (m.heap a).ms in
    let t = record (m.heap a) { ms = ms; next = add64 start ms } in
    if (ms == (m.heap a).ms) && not from_now
    then (true, m)
    else if is_armed a m
    then (true, add a (put a t (taken_out a m)))
    else (false, m)

abbrev pub delay : ℕ → TimerManager → ℕ
delay now m = elim m.timers [
  | [] ↦ 2 ^ 64 - 1
  | x ∷ xs ↦ if leb (m.heap x).next now then 0 else (m.heap x).next - now
]

unfoldable pub get_next_timer : ℕ → TimerManager → ℕ × TimerManager
get_next_timer now m = (delay now m, record m { tickled = false })

-- An hour is 60 * 60 * 1000 milliseconds.
abbrev pub is_rollover : ℕ → ℕ → Bool
is_rollover previous now = ltb now previous && ltb now (sub64 previous 3600000)

abbrev pub detect_clock_rollover : ℕ → TimerManager → Bool × TimerManager
detect_clock_rollover now m = (is_rollover m.previous_time now, record m { previous_time = now })

-- One round of the loop over the expired timers, and the loop.
abbrev pub expire : ℕ → ℕ → TimerManager → TimerManager
expire now a m =
    let again = put a (record (m.heap a) { next = add64 now (m.heap a).ms }) m in
    if (m.heap a).recurring
    then record again { timers = insert again.heap a again.timers }
    else put a (record (m.heap a) { cb = none }) m

abbrev pub expire_all : ℕ → List ℕ → TimerManager → List (Option Callback) × TimerManager
expire_all now [] m = ([], m)
expire_all now (a ∷ rest) m =
    let later = expire_all now rest (expire now a m) in ((m.heap a).cb ∷ later.0, later.1)

-- The number of timers that are taken out; the timer of `now` is at `p` for the time of the call.
abbrev pub expired_count : Bool → ℕ → ℕ → TimerManager → ℕ
expired_count rollover now p m =
    if rollover then length m.timers else upper_bound (update m.heap p (timer_at now)) p m.timers

abbrev pub take_expired : Bool → ℕ → ℕ → TimerManager → List (Option Callback) × TimerManager
take_expired rollover now p m =
    let k = expired_count rollover now p m in
    expire_all now (take k m.timers) (record m { timers = drop k m.timers })

-- `(*m_timers.begin())->m_next > now_ms`, which is undefined on an empty set.
abbrev pub first_later : ℕ → TimerManager → Result Bool
first_later now m = elim m.timers [ [] ↦ err out_of_bounds | x ∷ xs ↦ ok (ltb now (m.heap x).next) ]

-- `listExpiredCb` from the second lock on.
unfoldable pub list_locked : ℕ → ℕ → TimerManager → Result (List (Option Callback) × TimerManager)
list_locked now p m =
    let d = detect_clock_rollover now m in
    if d.0
    then ok (take_expired true now p d.1)
    else (first_later now d.1 >>= λ later.
        ok (if later then ([], d.1) else take_expired false now p d.1))

-- `listExpiredCb`, where no other thread takes the lock between the two locks.
unfoldable pub list_expired_cb :
    ℕ → ℕ → TimerManager → Result (List (Option Callback) × TimerManager)
list_expired_cb now p m = if has_timer m then list_locked now p m else ok ([], m)
