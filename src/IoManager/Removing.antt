-- ===== src/IoManager/Removing.antt =====
-- `delEvent` and `cancelEvent` of myhttp/iomanager.cpp on a valid table.
use http_practice.Prelude.{
  ℕ, ◌+◌, ◌-◌, ◌≤◌, ◌≡◌, refl, ap, ◌∙◌, sym, Bool, true, false, ◌&&◌, not, List, [], ◌∷◌, ◌++◌,
  some, arith, get_elem?, if◌then◌else◌, inl, inr, Bool-cases, Option-cases,
}
use http_practice.Prelude.Results.{Returns}
use http_practice.IoManager.Table.{
  Event, has, without, FdContext, get_context, IoManager, Task, task_of,
}
use http_practice.IoManager.Ops.{commit, less_op, del_event, cancel_event}
use http_practice.IoManager.Context.{
  waiting, waiting_in, cleared, cleared-Consistent, trigger_event-cleared, weight, weight-cleared,
}
use http_practice.IoManager.Invariant.{IsValid, commit-IsValid, weight-total}
use http_practice.IoManager.Adding.{
  registered, registered-at, less_fits, has-cleared, registered-commit,
}

-- After an event was taken away or not; `tasks` are those given to their schedulers.
pub record Removed (fd : ℕ) (e : Event) (accepted : Bool) (tasks : List (ℕ × Task)) (m : IoManager)
    (r : Bool × IoManager) : Type 0 where
  pub answer : r.0 ≡ (registered e fd m && accepted)
  pub valid : IsValid r.1
  pub now : registered e fd r.1 ≡ (registered e fd m && not accepted)
  pub pending : r.1.pending + (if r.0 then 1 else 0) ≡ m.pending
  pub scheduled : r.1.scheduled ≡ (if r.0 then tasks else []) ++ m.scheduled

kept-Removed :
    (fd : ℕ) (e : Event) (accepted : Bool) (tasks : List (ℕ × Task)) (m : IoManager)
    → (registered e fd m && accepted) ≡ false
    → IsValid m
    → Removed fd e accepted tasks m (false, m)
kept-Removed fd e accepted tasks m h v = record {
  answer = sym h;
  valid = v;
  now = ground arith;
  pending = omega arith;
  scheduled = refl;
}

taken-Removed :
    (fd : ℕ) (e : Event) (tasks : List (ℕ × Task)) (m : IoManager) (c : FdContext)
    → get_elem? m.fd_contexts fd ≡ some c
    → has e c.events ≡ true
    → IsValid m
    → Removed fd e true tasks m (
      true,
      commit fd
          (less_op (without e c.events))
          (without e c.events)
          (cleared e c)
          (m.pending - 1)
          (tasks ++ m.scheduled)
          m,
    )
taken-Removed fd e tasks m c at on v =
    let op = less_op (without e c.events) in
    let mask = without e c.events in
    let (fits, told) = less_fits e c on in
    let lighter = weight-cleared e c on in
    let counts : weight c ≤ m.pending =
      omega (arith, weight-total m.fd_contexts fd c at, v.counted) in
    let there : registered e fd m ≡ true = registered-at e fd m c at ∙ on in
    record {
      answer = rw there refl;
      valid =
          commit-IsValid m fd op mask c (cleared e c) (m.pending - 1) (tasks ++ m.scheduled) v at
            (cleared-Consistent e c (v.consistent fd c at)) (omega (arith, lighter, counts)) fits
            told;
      now = rw there (
          registered-commit e fd op mask c (cleared e c) (m.pending - 1) (tasks ++ m.scheduled) m at
          ∙ has-cleared e c);
      pending = omega (arith, lighter, counts);
      scheduled = refl;
    }

-- delEvent on a valid table says whether the event was registered and epoll_ctl accepted; if
-- so the event is neither registered nor counted; nothing is scheduled in any case; the table
-- is valid.
pub del_event-Removed :
    (fd : ℕ) (e : Event) (accepted : Bool) (m : IoManager)
    → IsValid m
    → Removed fd e accepted [] m (del_event fd e accepted m)
unfolding del_event
del_event-Removed fd e accepted m v = elim (Option-cases (get_elem? m.fd_contexts fd)) [
  | inl out ↦ rw (del_event, out) (kept-Removed fd e accepted [] m (rw (registered, out) refl) v)
  | inr (c, at) ↦ elim (Bool-cases (has e c.events && accepted)) [
    | inr stays ↦
        let same : (registered e fd m && accepted) ≡ false =
          ap (λ b. b && accepted) (registered-at e fd m c at) ∙ stays in
        rw (del_event, at, stays) (kept-Removed fd e accepted [] m same v)
    | inl goes ↦
        let taken : accepted ≡ true = ground arith in
        let on : has e c.events ≡ true = ground arith in
        rw (del_event, at, goes, taken) (taken-Removed fd e [] m c at on v)
  ]
]

-- cancelEvent on a valid table fails no assertion and says whether the event was registered
-- and epoll_ctl accepted; if so what waited for the event is scheduled and the event is
-- neither registered nor counted, else nothing is scheduled or counted off; the table is
-- valid.
pub cancel_event-Removed :
    (fd : ℕ) (e : Event) (accepted : Bool) (m : IoManager)
    → IsValid m
    → Returns
        (cancel_event fd e accepted m)
        (Removed fd e accepted (waiting_in e (get_elem? m.fd_contexts fd)) m)
unfolding cancel_event
cancel_event-Removed fd e accepted m v = elim (Option-cases (get_elem? m.fd_contexts fd)) [
  | inl out ↦ (
    (false, m),
    rw (cancel_event, out) refl,
    kept-Removed fd e accepted (waiting_in e (get_elem? m.fd_contexts fd)) m
        (rw (registered, out) refl) v,
  )
  | inr (c, at) ↦ elim (Bool-cases (has e c.events && accepted)) [
    | inr stays ↦
        let same : (registered e fd m && accepted) ≡ false =
          ap (λ b. b && accepted) (registered-at e fd m c at) ∙ stays in
        (
          (false, m),
          rw (cancel_event, at, stays) refl,
          kept-Removed fd e accepted (waiting_in e (get_elem? m.fd_contexts fd)) m same v,
        )
    | inl goes ↦
        let taken : accepted ≡ true = ground arith in
        let on : has e c.events ≡ true = ground arith in
        let (s, p, run) = trigger_event-cleared e c (v.consistent fd c at) on in
        let tasks : waiting_in e (get_elem? m.fd_contexts fd)
            ≡ (s, task_of (get_context e c)) ∷ [] =
          rw (at, waiting, p) refl in
        (
          (
            true,
            commit fd (less_op (without e c.events)) (without e c.events) (cleared e c)
                (m.pending - 1) ((s, task_of (get_context e c)) ∷ m.scheduled) m,
          ),
          rw (cancel_event, at, goes, run) refl,
          rw (taken, tasks) (taken-Removed fd e ((s, task_of (get_context e c)) ∷ []) m c at on v),
        )
  ]
]
