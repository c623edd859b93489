-- ===== src/Timer/Reschedule.antt =====
-- `Timer::refresh` and `Timer::reset` of myhttp/timer.cpp.
use http_practice.Prelude.{
  ℕ, ◌≡◌, ◌≢◌, refl, Bool, true, false, ◌&&◌, not, none, some, arith, ◌==◌, if◌then◌else◌,
  Bool-cases, inl, inr,
}
use http_practice.Timer.Order.{Callback, Timer, update, insert}
use http_practice.Timer.Manager.{
  TimerManager, add, refresh, reset, is_armed, taken_out, add64, sub64,
}
use http_practice.Timer.Sorted.{elem, insert-elem, insert-Sorted, erase-elem, found-elem}
use http_practice.Timer.Invariant.{IsValid, taken_out-IsValid, update-Sorted, armed-elem}

-- The call gave true and the timer at `a` became `t`; the set has the same elements.
pub record Rescheduled (a : ℕ) (t : Timer) (m : TimerManager) (r : Bool × TimerManager)
    : Type 0 where
  pub done : r.0 ≡ true
  pub valid : IsValid r.1
  pub members : (b : ℕ) → elem b r.1.timers ≡ elem b m.timers
  pub moved : r.1.heap a ≡ t
  pub others : (b : ℕ) → b ≢ a → r.1.heap b ≡ m.heap b

-- The timer is taken out, changed and put in again.
abbrev reinsert : ℕ → Timer → TimerManager → TimerManager
reinsert a t m =
    let heap = update m.heap a t in
    record m { heap = heap; timers = insert heap a (taken_out a m).timers }

reinsert-Rescheduled :
    (a : ℕ) (t : Timer) (m : TimerManager)
    → IsValid m
    → elem a m.timers ≡ true
    → Rescheduled a t m (true, reinsert a t m)
reinsert-Rescheduled a t m v inside =
    let heap = update m.heap a t in
    let (sorted, out) = taken_out-IsValid m a v in
    let members : (b : ℕ) → elem b (reinsert a t m).timers ≡ elem b m.timers = λ b.
      elim (Bool-cases (b == a)) [
        | inl same ↦
            let e : b ≡ a = ground arith in
            ground (arith, insert-elem heap a b (taken_out a m).timers, inside)
        | inr other ↦ ground (
          arith,
          insert-elem heap a b (taken_out a m).timers,
          erase-elem m.heap a b m.timers v.sorted,
        )
      ] in
    record {
      done = refl;
      valid = record {
        sorted =
            insert-Sorted heap a (taken_out a m).timers
              (update-Sorted m.heap a t (taken_out a m).timers out sorted);
        armed = λ b h. let k = members b in ground (arith, v.armed b);
      };
      members = members;
      moved = ground arith;
      others = λ b ne. ground arith;
    }

none-is_armed : (m : TimerManager) (a : ℕ) → (m.heap a).cb ≡ none → is_armed a m ≡ false
none-is_armed m a e = rw (is_armed, e) refl

armed-is_armed :
    (m : TimerManager) (a : ℕ) (f : Callback)
    → IsValid m
    → (m.heap a).cb ≡ some f
    → is_armed a m ≡ true
armed-is_armed m a f v e = rw (is_armed, e, found-elem m.heap a m.timers) (armed-elem m a f v e)

-- refresh on a valid manager gives false and no change for a timer without a callback, and
-- else true, with the timer at now plus its interval and the set of the same elements, in a
-- valid manager.
pub refresh-Rescheduled :
    (now a : ℕ) (m : TimerManager)
    → IsValid m
    → ((m.heap a).cb ≡ none → refresh now a m ≡ (false, m))
      × ((f : Callback)
          → (m.heap a).cb ≡ some f
          → Rescheduled a
              (record (m.heap a) { next = add64 now (m.heap a).ms })
              m
              (refresh now a m))
unfolding refresh
refresh-Rescheduled now a m v = (
  λ e. rw (refresh, none-is_armed m a e) refl,
  λ f e.
      rw (refresh, armed-is_armed m a f v e)
        (reinsert-Rescheduled a (record (m.heap a) { next = add64 now (m.heap a).ms }) m v
          (armed-elem m a f v e)),
)

-- What `reset` makes of a timer.
abbrev pub reset_to : ℕ → ℕ → Bool → Timer → Timer
reset_to now ms from_now t = record t {
  ms = ms;
  next = add64 (if from_now then now else sub64 t.next t.ms) ms;
}

-- The interval is the old one and the time is not counted from now.
abbrev pub KeepsTime : ℕ → Bool → Timer → Type 0
KeepsTime ms from_now t = (ms ≡ t.ms) × (from_now ≡ false)

-- reset on a valid manager gives true and changes nothing for the old interval not from now;
-- else false and no change for a timer without a callback; else true, with the timer at its
-- new interval and time and the set of the same elements, in a valid manager.
pub reset-Rescheduled :
    (now a ms : ℕ) (from_now : Bool) (m : TimerManager)
    → IsValid m
    → (KeepsTime ms from_now (m.heap a) → reset now a ms from_now m ≡ (true, m))
      × (¬ KeepsTime ms from_now (m.heap a)
          → (m.heap a).cb ≡ none
          → reset now a ms from_now m ≡ (false, m))
      × (¬ KeepsTime ms from_now (m.heap a)
          → (f : Callback) → (m.heap a).cb ≡ some f
          → Rescheduled a (reset_to now ms from_now (m.heap a)) m (reset now a ms from_now m))
unfolding reset add
reset-Rescheduled now a ms from_now m v = (
  λ (e, n). rw (reset, e, n) (ground arith),
  λ moves e. rw (reset, moving moves, none-is_armed m a e) refl,
  λ moves f e.
      let r =
        reinsert-Rescheduled a (reset_to now ms from_now (m.heap a)) m v (armed-elem m a f v e) in
      rw (reset, moving moves, armed-is_armed m a f v e)
        record {
          done = refl;
          valid = record { sorted = r.valid.sorted; armed = r.valid.armed };
          members = r.members;
          moved = r.moved;
          others = r.others;
        },
)
  where
    moving : ¬ KeepsTime ms from_now (m.heap a) → ((ms == (m.heap a).ms) && not from_now) ≡ false
    moving h = elim (Bool-cases ((ms == (m.heap a).ms) && not from_now)) [
      | inl t ↦ absurd (h (ground arith))
      | inr f ↦ f
    ]
