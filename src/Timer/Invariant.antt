-- ===== src/Timer/Invariant.antt =====
-- The invariant of the timer manager of myhttp/timer.cpp, and that the calls keep it.
use http_practice.Prelude.{
  ℕ, ◌≡◌, ◌≢◌, refl, Bool, true, false, ◌&&◌, not, List, Option, none, some, arith, ◌==◌,
  Bool-cases, inl, inr,
}
use http_practice.Prelude.Results.{ok, Returns}
use http_practice.Timer.Order.{Callback, Timer, Heap, update, insert, found, erase}
use http_practice.Timer.Manager.{
  TimerManager, new_manager, add, put, add_timer, cancel, taken_out, new_timer,
}
use http_practice.Timer.Sorted.{
  elem, Sorted, Sorted-agree, insert-elem, insert-Sorted, erase-elem, erase-Sorted, found-elem,
}

-- The set is in order, and a timer with a callback is in it.
pub record IsValid (m : TimerManager) : Type 0 where
  pub sorted : Sorted m.heap m.timers
  pub armed : (b : ℕ) → elem b m.timers ≡ false → (m.heap b).cb ≡ none

pub new_manager-IsValid : (now : ℕ) → IsValid (new_manager now)
new_manager-IsValid now = record { sorted = tt; armed = λ b h. refl }

-- A timer that is not in the set changes: the set stays in order.
pub update-Sorted :
    (heap : Heap) (a : ℕ) (t : Timer) (s : List ℕ)
    → elem a s ≡ false
    → Sorted heap s
    → Sorted (update heap a t) s
update-Sorted heap a t s out h =
    Sorted-agree heap (update heap a t) s
      (λ b m. elim (Bool-cases (a == b)) [
        | inl same ↦ let e : a ≡ b = ground arith in absurd (cc)
        | inr other ↦ rw other refl
      ])
      h

-- A changed timer goes into the set.
pub insert-IsValid :
    (m : TimerManager) (a : ℕ) (t : Timer)
    → elem a m.timers ≡ false
    → IsValid m
    → IsValid (record (put a t m) { timers = insert (update m.heap a t) a m.timers })
insert-IsValid m a t out v = record {
  sorted =
      insert-Sorted (update m.heap a t) a m.timers (update-Sorted m.heap a t m.timers out v.sorted);
  armed = λ b h. ground (arith, insert-elem (update m.heap a t) a b m.timers, v.armed b);
}

-- A timer without a callback leaves the set.
pub taken_out-IsValid :
    (m : TimerManager) (a : ℕ)
    → IsValid m
    → Sorted m.heap (taken_out a m).timers × (elem a (taken_out a m).timers ≡ false)
taken_out-IsValid m a v = (
  erase-Sorted m.heap a m.timers v.sorted,
  ground (arith, erase-elem m.heap a a m.timers v.sorted),
)

pub add_timer-IsValid :
    (now ms : ℕ) (cb : Option Callback) (recurring : Bool) (a : ℕ) (m : TimerManager)
    → elem a m.timers ≡ false
    → IsValid m
    → IsValid (add_timer now ms cb recurring a m)
unfolding add_timer add
add_timer-IsValid now ms cb recurring a m out v =
    let w = insert-IsValid m a (new_timer now ms cb recurring) out v in
    record { sorted = w.sorted; armed = w.armed }

pub armed-elem :
    (m : TimerManager) (a : ℕ) (f : Callback)
    → IsValid m
    → (m.heap a).cb ≡ some f
    → elem a m.timers ≡ true
armed-elem m a f v e = elim (Bool-cases (elem a m.timers)) [
  | inl t ↦ t
  | inr out ↦ absurd (let c = v.armed a out in ground (arith, c, e))
]

-- What is in the set after `cancel`, and that the timer has no callback any more.
pub record Cancelled (a : ℕ) (m : TimerManager) (r : Bool × TimerManager) : Type 0 where
  pub done : r.0 ≡ true
  pub valid : IsValid r.1
  pub members : (b : ℕ) → elem b r.1.timers ≡ (elem b m.timers && not (b == a))
  pub cleared : (r.1.heap a).cb ≡ none
  pub others : (b : ℕ) → b ≢ a → r.1.heap b ≡ m.heap b
  pub tickled : r.1.tickled ≡ m.tickled
  pub wakeups : r.1.wakeups ≡ m.wakeups

-- cancel on a valid manager: a timer without a callback gives false and changes nothing; one
-- with a callback is found in the set, leaves it and loses the callback, with true, the other
-- timers unchanged and the manager valid.
pub cancel-Cancelled :
    (a : ℕ) (m : TimerManager)
    → IsValid m
    → ((m.heap a).cb ≡ none → cancel a m ≡ ok (false, m))
      × ((f : Callback) → (m.heap a).cb ≡ some f → Returns (cancel a m) (Cancelled a m))
unfolding cancel
cancel-Cancelled a m v = (
  λ e. rw (cancel, e) refl,
  λ f e.
      let heap' = update m.heap a (record (m.heap a) { cb = none }) in
      let inside = armed-elem m a f v e in
      let there : found heap' a m.timers ≡ true = rw (found-elem heap' a m.timers) inside in
      let sorted : Sorted heap' m.timers =
        Sorted-agree m.heap heap' m.timers
          (λ b k. elim (Bool-cases (a == b)) [
            | inl same ↦ let q : b ≡ a = ground arith in rw (same, q) refl
            | inr other ↦ rw other refl
          ])
          v.sorted in
      (
        (true, record m { heap = heap'; timers = erase heap' a m.timers }),
        rw (cancel, e, there) refl,
        record {
          done = refl;
          valid = record {
            sorted = erase-Sorted heap' a m.timers sorted;
            armed =
                λ b h. let k = erase-elem heap' a b m.timers sorted in ground (arith, k, v.armed b);
          };
          members = λ b. erase-elem heap' a b m.timers sorted;
          cleared = ground arith;
          others = λ b ne. ground arith;
          tickled = refl;
          wakeups = refl;
        },
      ),
)
