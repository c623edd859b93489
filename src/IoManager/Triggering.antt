-- ===== src/IoManager/Triggering.antt =====
-- `cancelAll` of myhttp/iomanager.cpp on a valid table, and the conditional triggers that it and
-- `idle` make.
use http_practice.Prelude.{
  ℕ, ◌+◌, ◌-◌, ◌≤◌, ◌≡◌, refl, ◌∙◌, Bool, true, false, ◌&&◌, ◌||◌, not, ◌∷◌, arith, get_elem?,
  if◌then◌else◌, inl, inr, Bool-cases, Option-cases,
}
use http_practice.Prelude.Results.{Returns}
use http_practice.IoManager.Table.{
  Event, read, write, Mask, no_events, has, without, is_none, FdContext, IoManager, ctl_del,
  get_context, task_of,
}
use http_practice.IoManager.Ops.{commit, Progress, trigger_if, cancel_all}
use http_practice.IoManager.Context.{
  Consistent, cleared, cleared-Consistent, trigger_event-cleared, weight, weight-cleared,
}
use http_practice.IoManager.Invariant.{IsValid, watched, commit-IsValid, weight-total}
use http_practice.IoManager.Adding.{registered, registered-at, registered-commit}

-- What one conditional trigger leaves: the event is gone, and counted off.
pub record Done (b : Bool) (e : Event) (p q : Progress) : Type 0 where
  pub consistent : Consistent q.0
  pub events : q.0.events ≡ (if b then without e p.0.events else p.0.events)
  pub count : q.1.0 + weight p.0 ≡ p.1.0 + weight q.0
  pub enough : weight q.0 ≤ q.1.0

events-cleared : (e : Event) (c : FdContext) → (cleared e c).events ≡ without e c.events
events-cleared read c = refl
events-cleared write c = refl

pub trigger_if-Done :
    (b : Bool) (e : Event) (p : Progress)
    → Consistent p.0
    → (b ≡ true → has e p.0.events ≡ true)
    → weight p.0 ≤ p.1.0
    → Returns (trigger_if b e p) (Done b e p)
trigger_if-Done false e p h on w =
    (p, refl, record { consistent = h; events = refl; count = refl; enough = w })
trigger_if-Done true e p h on w =
    let (s, f, run) = trigger_event-cleared e p.0 h (on refl) in
    let lighter = weight-cleared e p.0 (on refl) in
    (
      (cleared e p.0, (p.1.0 - 1, (s, task_of (get_context e p.0)) ∷ p.1.1)),
      rw run refl,
      record {
        consistent = cleared-Consistent e p.0 h;
        events = events-cleared e p.0;
        count = omega (arith, lighter, w);
        enough = omega (arith, lighter, w);
      },
    )

-- What `cancelAll` leaves of a descriptor.
pub record AllCancelled (fd : ℕ) (accepted : Bool) (m : IoManager) (r : Bool × IoManager)
    : Type 0 where
  pub answer : r.0 ≡ ((registered read fd m || registered write fd m) && accepted)
  pub valid : IsValid r.1
  pub now : (e : Event) → registered e fd r.1 ≡ (registered e fd m && not accepted)

gone : (s t : Mask) → s ≡ t → is_none t ≡ true → (e : Event) → has e s ≡ false
gone s t q h read = rw q (ground arith)
gone s t q h write = rw q (ground arith)

after_both :
    (s t u : Mask)
    → t ≡ (if s.reads then without read s else s)
    → u ≡ (if t.writes then without write t else t)
    → is_none u ≡ true
after_both s t u h k = rw (k, h) (ground arith)

-- cancelAll on a valid table fails no assertion; it says whether an event of the descriptor
-- was registered and epoll_ctl accepted; an event of the descriptor is registered after it
-- only if it was and epoll_ctl did not accept; the table is valid.
pub cancel_all-AllCancelled :
    (fd : ℕ) (accepted : Bool) (m : IoManager)
    → IsValid m
    → Returns (cancel_all fd accepted m) (AllCancelled fd accepted m)
unfolding cancel_all
cancel_all-AllCancelled fd accepted m v = elim (Option-cases (get_elem? m.fd_contexts fd)) [
  | inl out ↦ (
    (false, m),
    rw (cancel_all, out) refl,
    record { answer = rw (registered, out) refl; valid = v; now = λ e. rw (registered, out) refl },
  )
  | inr (c, at) ↦ elim (Bool-cases (not (is_none c.events) && accepted)) [
    | inr stays ↦ (
      (false, m),
      rw (cancel_all, at, stays) refl,
      record {
        answer = rw (registered, at) (ground arith);
        valid = v;
        now = λ e. rw (registered-at e fd m c at) (unchanged e c accepted stays);
      },
    )
    | inl goes ↦
        let taken : accepted ≡ true = ground arith in
        let counts : weight c ≤ m.pending =
          omega (arith, weight-total m.fd_contexts fd c at, v.counted) in
        let (p, run, d) =
          trigger_if-Done c.events.reads read (c, (m.pending, m.scheduled)) (v.consistent fd c at)
            (λ h. h) counts in
        let (q, run', d') =
          trigger_if-Done p.0.events.writes write p d.consistent (λ h. h) d.enough in
        let empty = after_both c.events p.0.events q.0.events d.events d'.events in
        (
          (true, commit fd ctl_del no_events q.0 q.1.0 q.1.1 m),
          rw (cancel_all, at, goes, run, run', empty) refl,
          record {
            answer = rw (registered, at) (ground arith);
            valid =
                commit-IsValid m fd ctl_del no_events c q.0 q.1.0 q.1.1 v at d'.consistent
                  (omega (arith, d.count, d'.count)) (ground arith) (rw (watched, empty) refl);
            now = λ e.
                registered-commit e fd ctl_del no_events c q.0 q.1.0 q.1.1 m at
                ∙ gone q.0.events q.0.events refl empty e
                ∙ rw taken (ground arith);
          },
        )
  ]
]
  where
    unchanged :
        (e : Event) (c : FdContext) (accepted : Bool)
        → (not (is_none c.events) && accepted) ≡ false
        → has e c.events ≡ (has e c.events && not accepted)
    unchanged read c accepted h = ground arith
    unchanged write c accepted h = ground arith
