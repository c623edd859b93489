-- ===== src/Timer/Poll.antt =====
-- The two calls that the event loop makes of myhttp/timer.cpp: `getNextTimer` and
-- `listExpiredCb`.
use http_practice.Prelude.{
  ℕ, ◌-◌, ◌^◌, ◌≤◌, ◌≡◌, refl, true, false, List, [], ◌∷◌, arith, ltb, ◌==◌, Bool-cases, inl, inr,
  ◌⊎◌,
}
use http_practice.Prelude.Results.{err, out_of_bounds, Returns}
use http_practice.Timer.Order.{comparator}
use http_practice.Timer.Manager.{
  TimerManager, is_rollover, take_expired, list_locked, list_expired_cb, get_next_timer, has_timer,
  delay,
}
use http_practice.Timer.Sorted.{elem, Less, Sorted, elem-All}
use http_practice.Timer.Invariant.{IsValid}
use http_practice.Timer.Expired.{
  is_due, Expired, take_expired-Expired, at_time, at_time-Expired, none_due-Expired, none_due,
}

Sorted-at : (m : TimerManager) (ts : List ℕ) → m.timers ≡ ts → IsValid m → Sorted m.heap ts
Sorted-at m ts e v = rw (← e) v.sorted

elem_at :
    (m : TimerManager) (ts : List ℕ)
    → m.timers ≡ ts
    → (b : ℕ) → elem b m.timers ≡ true
    → elem b ts ≡ true
elem_at m ts e b i = rw (← e) i

first_least :
    (now x : ℕ) (xs : List ℕ) (m : TimerManager)
    → Sorted m.heap (x ∷ xs)
    → (b : ℕ) → elem b (x ∷ xs) ≡ true
    → (m.heap x).next - now ≤ (m.heap b).next - now
unfolding comparator
first_least now x xs m (h, hs) b i = elim (Bool-cases (b == x)) [
  | inl same ↦ let e : b ≡ x = ground arith in rw e (ground arith)
  | inr other ↦
      let k : Less m.heap x b = elem-All (Less m.heap x) b xs h (ground arith) in ground arith
]

-- The locked half on a set that is not empty.
list_locked-Expired :
    (now p x : ℕ) (xs : List ℕ) (m : TimerManager)
    → m.timers ≡ x ∷ xs
    → elem p m.timers ≡ false
    → IsValid m
    → Returns
        (list_locked now p m)
        (Expired now (is_due (is_rollover m.previous_time now) now p m) m)
unfolding list_locked
list_locked-Expired now p x xs m e out v = elim (Bool-cases (is_rollover m.previous_time now)) [
  | inl back ↦ (
    take_expired true now p (at_time now m),
    rw (list_locked, back) refl,
    rw back (
        at_time-Expired now (is_due true now p m) m (take_expired true now p (at_time now m)) (
          take_expired-Expired true now p (at_time now m) out
            record { sorted = v.sorted; armed = v.armed })),
  )
  | inr forth ↦ elim (Bool-cases (ltb now (m.heap x).next)) [
    | inl later ↦
        let sorted : Sorted m.heap (x ∷ xs) = Sorted-at m (x ∷ xs) e v in
        (
          ([], at_time now m),
          rw (list_locked, forth, e, later) refl,
          rw forth (
              none_due-Expired now (is_due false now p m) m (at_time now m) refl refl refl refl
                (rw e (none_due now p x xs m sorted later)) v),
        )
    | inr due ↦ (
      take_expired false now p (at_time now m),
      rw (list_locked, forth, e, due) refl,
      rw forth (
          at_time-Expired now (is_due false now p m) m (take_expired false now p (at_time now m)) (
            take_expired-Expired false now p (at_time now m) out
              record { sorted = v.sorted; armed = v.armed })),
    )
  ]
]

-- listExpiredCb on a valid manager ends normally; it gives the callbacks of the timers that
-- are due, in the order of the set; of these the recurring ones stay in the set with a time of
-- now plus their interval, the others leave it and lose their callbacks; no other timer
-- changes, and the manager is valid. Due are all timers if the clock went back by more than an
-- hour, and else those before now, with those at now whose address is below that of now_timer.
pub list_expired_cb-Expired :
    (now p : ℕ) (m : TimerManager)
    → elem p m.timers ≡ false
    → IsValid m
    → Returns
        (list_expired_cb now p m)
        (Expired now (is_due (is_rollover m.previous_time now) now p m) m)
unfolding list_expired_cb
list_expired_cb-Expired now p m out v = go m.timers refl
  where
    go :
        (ts : List ℕ)
        → m.timers ≡ ts
        → Returns
            (list_expired_cb now p m)
            (Expired now (is_due (is_rollover m.previous_time now) now p m) m)
    go [] e =
        let empty : has_timer m ≡ false = rw (has_timer, e) refl in
        (
          ([], m),
          rw (list_expired_cb, empty) refl,
          none_due-Expired now (is_due (is_rollover m.previous_time now) now p m) m m refl refl refl
              refl (λ b i. absurd (let k = elem_at m [] e b i in ground (arith, k))) v,
        )
    go (x ∷ xs) e =
        let (r, run, w) = list_locked-Expired now p x xs m e out v in
        let some_left : has_timer m ≡ true = rw (has_timer, e) (ground arith) in
        (r, rw (list_expired_cb, some_left) run, w)

-- The second half of listExpiredCb dereferences end() where the set is empty and the clock was
-- not set back.
pub list_locked-empty :
    (now p : ℕ) (m : TimerManager)
    → m.timers ≡ []
    → is_rollover m.previous_time now ≡ false
    → list_locked now p m ≡ err out_of_bounds
unfolding list_locked
list_locked-empty now p m e forth = rw (list_locked, forth, e) refl

-- How long to wait, by the times of the timers.
pub record NextDelay (now : ℕ) (m : TimerManager) (ms : ℕ) : Type 0 where
  pub least : (b : ℕ) → elem b m.timers ≡ true → ms ≤ (m.heap b).next - now
  pub reached :
      ((m.timers ≡ []) × (ms ≡ 2 ^ 64 - 1))
      ⊎ ((b : ℕ) × (elem b m.timers ≡ true) × (ms ≡ (m.heap b).next - now))

-- getNextTimer on a valid manager gives the least time to wait for a timer of the set, or the
-- largest uint64_t where there is none, and clears m_tickled and nothing else.
pub get_next_timer-NextDelay :
    (now : ℕ) (m : TimerManager)
    → IsValid m
    → NextDelay now m (get_next_timer now m).0
      × ((get_next_timer now m).1 ≡ record m { tickled = false })
unfolding get_next_timer
get_next_timer-NextDelay now m v = (go m.timers refl, refl)
  where
    go : (ts : List ℕ) → m.timers ≡ ts → NextDelay now m (delay now m)
    go [] e = record {
      least = λ b i. absurd (let k = elem_at m [] e b i in ground (arith, k));
      reached = inl (e, rw (delay, e) refl);
    }
    go (x ∷ xs) e =
        let (h, hs) = Sorted-at m (x ∷ xs) e v in
        let d : delay now m ≡ (m.heap x).next - now = rw (delay, e) (ground arith) in
        record {
          least = λ b i. rw d (first_least now x xs m (h, hs) b (elem_at m (x ∷ xs) e b i));
          reached = inr (x, rw e (ground arith), d);
        }
