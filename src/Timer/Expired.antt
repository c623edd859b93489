-- ===== src/Timer/Expired.antt =====
-- `TimerManager::listExpiredCb` and `getNextTimer` of myhttp/timer.cpp against the times of the
-- timers, whatever their order in the set.
use http_practice.Prelude.{
  ℕ, ◌≡◌, ◌≢◌, refl, sym, ap, ◌∙◌, Bool, true, false, ◌&&◌, ◌||◌, not, List, [], ◌∷◌, Option, none,
  arith, ltb, ◌==◌, if◌then◌else◌, Bool-cases, inl, inr, map, take, drop,
}
use http_practice.Timer.Order.{Callback, Timer, update, comparator, less}
use http_practice.Timer.Manager.{TimerManager, timer_at, expired_count, take_expired}
use http_practice.Timer.Sorted.{elem, Less, Sorted, filter, elem-filter, elem-All}
use http_practice.Timer.Bound.{
  CutBy, upper_bound-CutBy, whole-CutBy, filter-Sorted, filter_agree, filter_none,
}
use http_practice.Timer.Invariant.{IsValid, update-Sorted}
use http_practice.Timer.Expiring.{rearmed, expire_all-Looped}

-- Whether a timer expires at `now`: the clock went back by more than an hour, or the time has
-- come. At `now` itself the timer's address `b` must be below `p`, that of the code's `now_timer`.
abbrev pub is_due : Bool → ℕ → ℕ → TimerManager → ℕ → Bool
is_due rollover now p m b =
    rollover || (ltb (m.heap b).next now || (((m.heap b).next == now) && ltb b p))

-- What is left of the manager and given back, in terms of which timers are due.
pub record Expired (now : ℕ) (due : ℕ → Bool) (m : TimerManager)
    (r : List (Option Callback) × TimerManager) : Type 0 where
  pub callbacks : r.0 ≡ map (λ a. (m.heap a).cb) (filter due m.timers)
  pub members :
      (b : ℕ) → elem b r.1.timers ≡ (elem b m.timers && (not (due b) || (m.heap b).recurring))
  pub heap :
      (b : ℕ) → r.1.heap b ≡ (if elem b m.timers && due b then rearmed now (m.heap b) else m.heap b)
  pub valid : IsValid r.1
  pub tickled : r.1.tickled ≡ m.tickled
  pub wakeups : r.1.wakeups ≡ m.wakeups

after_now :
    (now p : ℕ) (m : TimerManager) (b : ℕ)
    → b ≢ p
    → not (less (update m.heap p (timer_at now)) p b) ≡ is_due false now p m b
unfolding comparator
after_now now p m b ne = ground arith

left_in :
    (i d r : Bool) {x f g : Bool}
    → x ≡ (g || (f && r))
    → f ≡ (i && d)
    → g ≡ (i && not d)
    → x ≡ (i && (not d || r))
left_in i d r e f g = ground arith

-- A timer that is out of the set has no callback, if those that were out before had none.
armed_after :
    (now : ℕ) (i d : Bool) (t t' : Timer)
    → t' ≡ (if i && d then rearmed now t else t)
    → (i && (not d || t.recurring)) ≡ false
    → (i ≡ false → t.cb ≡ none)
    → t'.cb ≡ none
armed_after now false d t t' e h k = ap (λ (u : Timer). u.cb) e ∙ k refl
armed_after now true false t t' e h k = absurd (ground arith)
armed_after now true true t t' e h k =
    let last : t.recurring ≡ false = ground arith in ap (λ (u : Timer). u.cb) e ∙ rw last refl

-- The timers that are due are the front of the set.
due-CutBy :
    (rollover : Bool) (now p : ℕ) (m : TimerManager)
    → elem p m.timers ≡ false
    → IsValid m
    → CutBy (is_due rollover now p m) (expired_count rollover now p m) m.timers
due-CutBy true now p m out v = whole-CutBy m.timers
due-CutBy false now p m out v =
    let heap = update m.heap p (timer_at now) in
    let (front, behind) =
      upper_bound-CutBy heap p m.timers
        (update-Sorted m.heap p (timer_at now) m.timers out v.sorted) in
    let same : (b : ℕ) → elem b m.timers ≡ true → not (less heap p b) ≡ is_due false now p m b =
      λ b i.
        after_now now p m b
          (λ e. absurd (let f : elem p m.timers ≡ true = rw (← e) i in ground (arith, out, f))) in
    (
      front ∙ filter_agree (λ b. not (less heap p b)) (is_due false now p m) m.timers same,
      behind
          ∙ filter_agree (λ b. not (not (less heap p b))) (λ b. not (is_due false now p m b))
              m.timers (λ b i. ap not (same b i)),
    )

pub take_expired-Expired :
    (rollover : Bool) (now p : ℕ) (m : TimerManager)
    → elem p m.timers ≡ false
    → IsValid m
    → Expired now (is_due rollover now p m) m (take_expired rollover now p m)
take_expired-Expired rollover now p m out v =
    let due = is_due rollover now p m in
    let k = expired_count rollover now p m in
    let m' = record m { timers = drop k m.timers } in
    let (front, behind) = due-CutBy rollover now p m out v in
    let first : Sorted m.heap (take k m.timers) =
      rw front (filter-Sorted m.heap due m.timers v.sorted) in
    let rest : Sorted m.heap (drop k m.timers) =
      rw behind (filter-Sorted m.heap (λ b. not (due b)) m.timers v.sorted) in
    let in_front : (b : ℕ) → elem b (take k m.timers) ≡ (elem b m.timers && due b) =
      λ b. rw front (elem-filter due b m.timers) in
    let in_rest : (b : ℕ) → elem b (drop k m.timers) ≡ (elem b m.timers && not (due b)) =
      λ b. rw behind (elem-filter (λ c. not (due c)) b m.timers) in
    let (cbs, l) =
      expire_all-Looped now m.heap (take k m.timers) m' first
        (λ b i. ground (arith, in_front b, in_rest b, i)) rest in
    let members : (b : ℕ)
        → elem b (take_expired rollover now p m).1.timers
          ≡ (elem b m.timers && (not (due b) || (m.heap b).recurring)) =
      λ b.
        let e = l.members b in
        let f = in_front b in
        let g = in_rest b in left_in (elem b m.timers) (due b) (m.heap b).recurring e f g in
    let heap : (b : ℕ)
        → (take_expired rollover now p m).1.heap b
          ≡ (if elem b m.timers && due b then rearmed now (m.heap b) else m.heap b) =
      λ b. l.heap b ∙ rw (in_front b) refl in
    record {
      callbacks = cbs ∙ rw front refl;
      members = members;
      heap = heap;
      valid = record {
        sorted = l.sorted;
        armed = λ b e.
            armed_after now (elem b m.timers) (due b) (m.heap b)
              ((take_expired rollover now p m).1.heap b) (heap b) (sym (members b) ∙ e) (v.armed b);
      };
      tickled = l.tickled;
      wakeups = l.wakeups;
    }

-- `detectClockRollover` has set the time of this call.
abbrev pub at_time : ℕ → TimerManager → TimerManager
at_time now m = record m { previous_time = now }

pub at_time-Expired :
    (now : ℕ) (due : ℕ → Bool) (m : TimerManager) (r : List (Option Callback) × TimerManager)
    → Expired now due (at_time now m) r
    → Expired now due m r
at_time-Expired now due m r e = record {
  callbacks = e.callbacks;
  members = e.members;
  heap = e.heap;
  valid = e.valid;
  tickled = e.tickled;
  wakeups = e.wakeups;
}

pub none_due-Expired :
    (now : ℕ) (due : ℕ → Bool) (m m' : TimerManager)
    → m'.heap ≡ m.heap
    → m'.timers ≡ m.timers
    → m'.tickled ≡ m.tickled
    → m'.wakeups ≡ m.wakeups
    → ((b : ℕ) → elem b m.timers ≡ true → due b ≡ false)
    → IsValid m
    → Expired now due m ([], m')
none_due-Expired now due m m' eh et ek ew idle v = record {
  callbacks = rw (filter_none due m.timers idle) refl;
  members = λ b.
      rw et
        (elim (Bool-cases (elem b m.timers)) [ inl i ↦ rw (i, idle b i) refl | inr o ↦ rw o refl ]);
  heap = λ b.
      rw eh
        (elim (Bool-cases (elem b m.timers)) [ inl i ↦ rw (i, idle b i) refl | inr o ↦ rw o refl ]);
  valid = record { sorted = rw (eh, et) v.sorted; armed = rw (eh, et) v.armed };
  tickled = ek;
  wakeups = ew;
}

-- Where the first timer is later than now, all are.
pub none_due :
    (now p x : ℕ) (xs : List ℕ) (m : TimerManager)
    → Sorted m.heap (x ∷ xs)
    → ltb now (m.heap x).next ≡ true
    → (b : ℕ) → elem b (x ∷ xs) ≡ true
    → is_due false now p m b ≡ false
unfolding comparator
none_due now p x xs m (h, hs) later b i = elim (Bool-cases (b == x)) [
  | inl same ↦ let e : b ≡ x = ground arith in rw e (ground arith)
  | inr other ↦
      let k : Less m.heap x b = elem-All (Less m.heap x) b xs h (ground arith) in ground arith
]
