-- ===== src/IoManager/Handling.antt =====
-- What `idle` of myhttp/iomanager.cpp does with an event of a descriptor, on a valid table.
use http_practice.Prelude.{
  ℕ, ◌≤◌, ◌≡◌, refl, ap, ◌∙◌, Bool, true, false, ◌&&◌, ◌||◌, not, none, some, arith, get_elem?,
  if◌then◌else◌, inl, inr, ◌⊎◌, Bool-cases,
}
use http_practice.Prelude.Results.{err, Returns, failed_assertion}
use http_practice.IoManager.Table.{
  Event, read, write, Mask, has, without, is_none, FdContext, IoManager, ctl_del,
}
use http_practice.IoManager.Ops.{
  commit, less_op, EpollEvent, real_events, minus, both, handle_event,
}
use http_practice.IoManager.Context.{trigger_event-fails, weight}
use http_practice.IoManager.Invariant.{IsValid, watched, op_fits, commit-IsValid, weight-total}
use http_practice.IoManager.Adding.{registered, registered-at, registered-commit}
use http_practice.IoManager.Triggering.{trigger_if-Done}

-- The events that are reported, errors and hang-ups turned into both, are registered.
abbrev pub Expected : Mask → Mask → Type 0
Expected s r = (r.reads ≡ true → s.reads ≡ true) × (r.writes ≡ true → s.writes ≡ true)

-- What the handling of an event leaves of a descriptor.
pub record Handled (fd : ℕ) (accepted : Bool) (r : Mask) (m m' : IoManager) : Type 0 where
  pub valid : IsValid m'
  pub now : (e : Event) → registered e fd m' ≡ (registered e fd m && not (accepted && has e r))

left_events :
    (s r t u : Mask)
    → t ≡ (if r.reads then without read s else s)
    → u ≡ (if r.writes then without write t else t)
    → u ≡ minus s r
left_events s r t u h k = k ∙ rw h (masks s r)
  where
    masks :
        (s r : Mask)
        → (if r.writes
            then without write (if r.reads then without read s else s)
            else (if r.reads then without read s else s))
          ≡ minus s r
    masks s r = ground arith

has-minus : (e : Event) (s r : Mask) → has e (minus s r) ≡ (has e s && not (has e r))
has-minus read s r = refl
has-minus write s r = refl

none_left :
    (e : Event) (s r : Mask) → is_none (both s r) ≡ true → has e s ≡ (has e s && not (has e r))
none_left read s r h = ground arith
none_left write s r h = ground arith

minus_fits :
    (s r : Mask) (c c' : FdContext)
    → c.events ≡ s
    → c'.events ≡ minus s r
    → is_none (both s r) ≡ false
    → (op_fits (less_op (minus s r)) (watched (some c)) ≡ true)
      × (elim (less_op (minus s r)) [ ctl_del ↦ none | _ ↦ some (minus s r) ] ≡ watched (some c'))
minus_fits s r c c' e e' h = (rw (watched, e) (ground arith), rw (watched, e') (ground arith))

-- On a valid table, an event of a descriptor of the table of which all that is reported,
-- errors and hang-ups turned into both, or nothing of it is registered, is handled with no
-- failed assertion; in the valid table that is left an event of the descriptor is registered
-- if it was, unless epoll_ctl accepted and it was reported.
pub handle_event-Handled :
    (fd : ℕ) (e : EpollEvent) (accepted : Bool) (m : IoManager) (c : FdContext)
    → get_elem? m.fd_contexts fd ≡ some c
    → Expected c.events (real_events e) ⊎ (is_none (both c.events (real_events e)) ≡ true)
    → IsValid m
    → Returns (handle_event fd e accepted m) (Handled fd accepted (real_events e) m)
unfolding handle_event
handle_event-Handled fd e accepted m c at fine v =
    elim (Bool-cases (is_none (both c.events (real_events e)) || not accepted)) [
      | inl skips ↦ (
        m,
        rw (handle_event, at, skips) refl,
        record {
          valid = v;
          now = λ k.
              rw (registered-at k fd m c at) (skipped k c.events (real_events e) accepted skips);
        },
      )
      | inr goes ↦
          let taken : accepted ≡ true = ground arith in
          let meets : is_none (both c.events (real_events e)) ≡ false = ground arith in
          let (reads, writes) = expected c.events (real_events e) fine meets in
          let counts : weight c ≤ m.pending =
            omega (arith, weight-total m.fd_contexts fd c at, v.counted) in
          let (p, run, d) =
            trigger_if-Done (real_events e).reads read (c, (m.pending, m.scheduled))
              (v.consistent fd c at) reads counts in
          let (q, run', d') =
            trigger_if-Done (real_events e).writes write p d.consistent
              (λ h. still c.events (real_events e) p.0.events d.events (writes h)) d.enough in
          let left =
            left_events c.events (real_events e) p.0.events q.0.events d.events d'.events in
          let s = minus c.events (real_events e) in
          let (fits, told) = minus_fits c.events (real_events e) c q.0 refl left meets in
          (
            commit fd (less_op s) s q.0 q.1.0 q.1.1 m,
            rw (handle_event, at, goes, run, run') refl,
            record {
              valid =
                  commit-IsValid m fd (less_op s) s c q.0 q.1.0 q.1.1 v at d'.consistent
                    (omega (arith, d.count, d'.count)) fits told;
              now = λ k.
                  registered-commit k fd (less_op s) s c q.0 q.1.0 q.1.1 m at
                  ∙ ap (has k) left
                  ∙ has-minus k c.events (real_events e)
                  ∙ rw (registered-at k fd m c at, taken) refl;
            },
          )
    ]
  where
    skipped :
        (k : Event) (s r : Mask) (a : Bool)
        → (is_none (both s r) || not a) ≡ true
        → has k s ≡ (has k s && not (a && has k r))
    skipped read s r a h = ground arith
    skipped write s r a h = ground arith

    expected :
        (s r : Mask)
        → Expected s r ⊎ (is_none (both s r) ≡ true)
        → is_none (both s r) ≡ false
        → Expected s r
    expected s r (inl h) n = h
    expected s r (inr h) n = absurd (ground (arith, h, n))

    still :
        (s r t : Mask)
        → t ≡ (if r.reads then without read s else s)
        → s.writes ≡ true
        → t.writes ≡ true
    still s r t h w = rw h (ground arith)

-- On a valid table, where epoll_ctl accepts and of the events reported of a descriptor, errors
-- and hang-ups turned into both, one is registered and another is not, idle fails the
-- assertion of triggerEvent.
pub handle_event-fails :
    (fd : ℕ) (e : EpollEvent) (m : IoManager) (c : FdContext)
    → get_elem? m.fd_contexts fd ≡ some c
    → is_none (both c.events (real_events e)) ≡ false
    → ¬ Expected c.events (real_events e)
    → IsValid m
    → handle_event fd e true m ≡ err failed_assertion
unfolding handle_event
handle_event-fails fd e m c at meets odd v =
    let r = real_events e in
    let goes : (is_none (both c.events r) || false) ≡ false = rw meets refl in
    elim (Bool-cases (r.reads && not c.events.reads)) [
      | inl first ↦
          let on : r.reads ≡ true = ground arith in
          let off : c.events.reads ≡ false = ground arith in
          rw (handle_event, at, goes, on, trigger_event-fails read c off) refl
      | inr fine ↦
          let counts : weight c ≤ m.pending =
            omega (arith, weight-total m.fd_contexts fd c at, v.counted) in
          let (p, run, d) =
            trigger_if-Done r.reads read (c, (m.pending, m.scheduled)) (v.consistent fd c at)
              (λ h. registered_read r.reads c.events.reads fine h) counts in
          let (on, off) = other c.events r fine odd in
          let off' : p.0.events.writes ≡ false = after c.events r p.0.events d.events off in
          rw (handle_event, at, goes, run, on, trigger_event-fails write p.0 off') refl
    ]
  where
    registered_read : (a b : Bool) → (a && not b) ≡ false → a ≡ true → b ≡ true
    registered_read a b h k = ground arith

    other :
        (s r : Mask)
        → (r.reads && not s.reads) ≡ false
        → ¬ Expected s r
        → (r.writes ≡ true) × (s.writes ≡ false)
    other s r h odd = ground arith

    after :
        (s r t : Mask)
        → t ≡ (if r.reads then without read s else s)
        → s.writes ≡ false
        → t.writes ≡ false
    after s r t h w = rw h (ground arith)
