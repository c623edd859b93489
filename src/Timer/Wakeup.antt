-- ===== src/Timer/Wakeup.antt =====
-- `onTimerInsertedAtFront` of myhttp/timer.cpp: what a thread relies on that sleeps for the time
-- `getNextTimer` gave it.
use http_practice.Prelude.{
  ℕ, ◌≤◌, ◌<◌, ◌≡◌, ◌≢◌, refl, sym, ap, ◌∙◌, Bool, true, false, ◌&&◌, not, List, [], ◌∷◌, Option,
  arith, ◌==◌, if◌then◌else◌, Bool-cases, Option-cases, inl, inr, ◌⊎◌,
}
use http_practice.Prelude.Results.{Result, ok, err, Returns}
use http_practice.Timer.Order.{Callback, Timer, Heap, update, comparator, less, insert}
use http_practice.Timer.Manager.{
  TimerManager, add_timer, add, put, new_timer, reset, get_next_timer, is_first, is_armed,
  taken_out, add64, sub64,
}
use http_practice.Timer.Sorted.{elem, insert-elem, erase-elem}
use http_practice.Timer.Invariant.{IsValid, cancel-Cancelled}
use http_practice.Timer.Calls.{
  Call, adds, cancels, resets, refreshes, waits, polls, call, IsFresh, calls_all, call-IsValid,
}

-- No timer of the set is due before `deadline`.
abbrev pub NoneBefore : ℕ → TimerManager → Type 0
NoneBefore deadline m = (b : ℕ) → elem b m.timers ≡ true → deadline ≤ (m.heap b).next

-- There was a wake-up since there were `n` of them, or none is needed.
abbrev pub Watched : ℕ → ℕ → TimerManager → Type 0
Watched deadline n m =
    (n < m.wakeups) ⊎ ((m.wakeups ≡ n) × (m.tickled ≡ false) × NoneBefore deadline m)

not_first :
    (heap : Heap) (a deadline : ℕ) (s : List ℕ)
    → ((b : ℕ) → elem b s ≡ true → deadline ≤ (heap b).next)
    → is_first a (insert heap a s) ≡ false
    → deadline ≤ (heap a).next
unfolding comparator
not_first heap a deadline [] h k = absurd (ground arith)
not_first heap a deadline (x ∷ xs) h k =
    let g = h x (ground arith) in
    elim (Bool-cases (less heap a x)) [
      | inl before ↦ absurd (ground arith)
      | inr after ↦ ground arith
    ]

add-Watched :
    (deadline n a : ℕ) (m : TimerManager) → Watched deadline n m → Watched deadline n (add a m)
unfolding add
add-Watched deadline n a m (inl woken) = inl (ground arith)
add-Watched deadline n a m (inr (same, calm, h)) =
    elim (Bool-cases (is_first a (insert m.heap a m.timers))) [
      | inl first ↦ inl (rw (first, calm) (ground arith))
      | inr behind ↦ inr (
        rw behind same,
        rw (behind, calm) refl,
        λ b i. elim (Bool-cases (b == a)) [
          | inl e ↦
              let e' : b ≡ a = ground arith in rw e' (not_first m.heap a deadline m.timers h behind)
          | inr ne ↦ h b (let k = insert-elem m.heap a b m.timers in ground arith)
        ],
      )
    ]

-- A timer changes that is not in the set, and the set gets no new element.
fewer-Watched :
    (deadline n : ℕ) (m m' : TimerManager)
    → m'.wakeups ≡ m.wakeups
    → m'.tickled ≡ m.tickled
    → ((b : ℕ)
        → elem b m'.timers ≡ true
        → (elem b m.timers ≡ true) × ((m'.heap b).next ≡ (m.heap b).next))
    → Watched deadline n m
    → Watched deadline n m'
fewer-Watched deadline n m m' ew et f (inl woken) = inl (omega (arith, ew))
fewer-Watched deadline n m m' ew et f (inr (same, calm, h)) =
    inr (ew ∙ same, et ∙ calm, λ b i. let (j, e) = f b i in rw e (h b j))

-- The calls that other threads make while one sleeps; all but `refresh` and those of the loop.
abbrev pub Wakes : Call → TimerManager → Type 0
Wakes (refreshes now a) m = ⊥
Wakes (waits now) m = ⊥
Wakes (polls now p) m = ⊥
Wakes c m = IsFresh c m

changed_next : (m : TimerManager) (a b : ℕ) (t : Timer) → b ≢ a → update m.heap a t b ≡ m.heap b
changed_next m a b t ne = ground arith

add_timer-Watched :
    (deadline n now ms : ℕ) (cb : Option Callback) (recurring : Bool) (a : ℕ) (m : TimerManager)
    → elem a m.timers ≡ false
    → Watched deadline n m
    → Watched deadline n (add_timer now ms cb recurring a m)
unfolding add_timer
add_timer-Watched deadline n now ms cb recurring a m out w =
    add-Watched deadline n a (put a (new_timer now ms cb recurring) m) (
      fewer-Watched deadline n m (put a (new_timer now ms cb recurring) m) refl refl
        (λ b i.
          let ne : b ≢ a =
            λ e. absurd (let k : elem a m.timers ≡ true = rw (← e) i in ground (arith, out, k)) in
          (i, ap (λ (t : Timer). t.next) (changed_next m a b (new_timer now ms cb recurring) ne)))
        w)

reset-Watched :
    (deadline n now a ms : ℕ) (from_now : Bool) (m : TimerManager)
    → IsValid m
    → Watched deadline n m
    → Watched deadline n (reset now a ms from_now m).1
unfolding reset
reset-Watched deadline n now a ms from_now m v w =
    elim (Bool-cases ((ms == (m.heap a).ms) && not from_now)) [
      | inl same ↦ rw (reset, same) w
      | inr moves ↦ elim (Bool-cases (is_armed a m)) [
        | inr idle ↦ rw (reset, moves, idle) w
        | inl armed ↦
            let start = if from_now then now else sub64 (m.heap a).next (m.heap a).ms in
            let t = record (m.heap a) { ms = ms; next = add64 start ms } in
            rw (reset, moves, armed)
              (add-Watched deadline n a (put a t (taken_out a m)) (
                fewer-Watched deadline n m (put a t (taken_out a m)) refl refl
                  (λ b i.
                    let k = erase-elem m.heap a b m.timers v.sorted in
                    let ne : b ≢ a = ground (arith, k, i) in
                    (ground (arith, k, i), ap (λ (u : Timer). u.next) (changed_next m a b t ne)))
                  w))
      ]
    ]

call-Watched :
    (deadline n : ℕ) (c : Call) (m : TimerManager)
    → Wakes c m
    → IsValid m
    → Watched deadline n m
    → Returns (call c m) (Watched deadline n)
call-Watched deadline n (adds now ms cb recurring a) m f v w = (
  add_timer now ms cb recurring a m,
  refl,
  add_timer-Watched deadline n now ms cb recurring a m f w,
)
call-Watched deadline n (cancels a) m f v w = elim (Option-cases (m.heap a).cb) [
  | inl e ↦ (m, rw ((cancel-Cancelled a m v).0 e) refl, w)
  | inr (g, e) ↦
      let (r, run, c) = (cancel-Cancelled a m v).1 g e in
      (
        r.1,
        rw run refl,
        fewer-Watched deadline n m r.1 c.wakeups c.tickled
            (λ b i.
              let k = c.members b in
              let ne : b ≢ a = ground (arith, k, i) in
              (ground (arith, k, i), ap (λ (t : Timer). t.next) (c.others b ne)))
            w,
      )
]
call-Watched deadline n (resets now a ms from_now) m f v w =
    ((reset now a ms from_now m).1, refl, reset-Watched deadline n now a ms from_now m v w)
call-Watched deadline n (refreshes now a) m f v w = absurd f
call-Watched deadline n (waits now) m f v w = absurd f
call-Watched deadline n (polls now p) m f v w = absurd f

abbrev pub AllWake : List Call → TimerManager → Type 0
AllWake [] m = Unit {0}
AllWake (c ∷ cs) m = Wakes c m × ((m' : TimerManager) → call c m ≡ ok m' → AllWake cs m')

Wakes-IsFresh : (c : Call) (m : TimerManager) → Wakes c m → IsFresh c m
Wakes-IsFresh (adds now ms cb recurring a) m f = f
Wakes-IsFresh (cancels a) m f = f
Wakes-IsFresh (resets now a ms from_now) m f = f
Wakes-IsFresh (refreshes now a) m f = absurd f
Wakes-IsFresh (waits now) m f = absurd f
Wakes-IsFresh (polls now p) m f = absurd f

ok-inj : {a b : TimerManager} → ok a ≡ ok b → a ≡ b
ok-inj {a} e = ap (λ (r : Result TimerManager). elim r [ ok x ↦ x | err f ↦ a ]) e

calls_all-Watched :
    (deadline n : ℕ) (cs : List Call) (m : TimerManager)
    → AllWake cs m
    → IsValid m
    → Watched deadline n m
    → Returns (calls_all cs m) (Watched deadline n)
calls_all-Watched deadline n [] m f v w = (m, refl, w)
calls_all-Watched deadline n (c ∷ cs) m f v w =
    let (m', run, w') = call-Watched deadline n c m f.0 v w in
    let (m2, run2, v2) = call-IsValid c m (Wakes-IsFresh c m f.0) v in
    let same : m2 ≡ m' = ok-inj (sym run2 ∙ run) in
    let (m'', run', w'') = calls_all-Watched deadline n cs m' (f.1 m' run) (rw (← same) v2) w' in
    (m'', rw run run', w'')

-- Where no timer of a valid manager is due before a deadline when getNextTimer is called, any
-- sequence of addTimer, cancel and reset calls after it, each new timer at the address of no
-- timer in the set, ends normally, and either onTimerInsertedAtFront was called since or still
-- no timer is due before the deadline.
pub get_next_timer-wakes :
    (now deadline : ℕ) (cs : List Call) (m : TimerManager)
    → IsValid m
    → NoneBefore deadline m
    → AllWake cs (get_next_timer now m).1
    → Returns
        (calls_all cs (get_next_timer now m).1)
        (λ m'. (m.wakeups < m'.wakeups) ⊎ NoneBefore deadline m')
unfolding get_next_timer
get_next_timer-wakes now deadline cs m v h f =
    let (m', run, w) =
      calls_all-Watched deadline m.wakeups cs (get_next_timer now m).1 f
        record { sorted = v.sorted; armed = v.armed } (inr (refl, refl, h)) in
    (m', run, elim w [ inl woken ↦ inl woken | inr (e, calm, k) ↦ inr k ])
