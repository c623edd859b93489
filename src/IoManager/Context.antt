-- ===== src/IoManager/Context.antt =====
-- One `FdContext` of myhttp/iomanager.cpp: its events and what waits for them go together.
use http_practice.Prelude.{
  ℕ, ◌+◌, ◌≡◌, refl, ap, ◌∙◌, Bool, true, false, List, [], ◌∷◌, Option, none, some, arith, inl, inr,
  ◌⊎◌, if◌then◌else◌,
}
use http_practice.Prelude.Results.{Result, ok, err, Returns, failed_assertion}
use http_practice.IoManager.Table.{
  Event, read, write, has, with_event, without, EventContext, reset_context, FdContext, get_context,
  set_context, Task, runs_cb, runs_fiber, task_of, after_schedule, trigger_context, trigger_event,
}
use http_practice.IoManager.Ops.{Caller, is_free, filled}

-- A callback or a fiber waits, not both.
abbrev pub Waits : EventContext → Type 0
Waits x =
    ((f : ℕ) × (x.cb ≡ some f) × (x.fiber ≡ none)) ⊎ ((x.cb ≡ none) × (f : ℕ) × (x.fiber ≡ some f))

-- What the context of an event holds where the event is registered, and where it is not.
abbrev pub Fits : Bool → EventContext → Type 0
Fits true x = ((s : ℕ) × (x.scheduler ≡ some s)) × Waits x
Fits false x = x ≡ reset_context

abbrev pub Consistent : FdContext → Type 0
Consistent c = (e : Event) → Fits (has e c.events) (get_context e c)

-- The context without the event and what waited for it.
abbrev pub cleared : Event → FdContext → FdContext
cleared e c = set_context e reset_context (record c { events = without e c.events })

pub cleared-Consistent : (e : Event) (c : FdContext) → Consistent c → Consistent (cleared e c)
cleared-Consistent read c h read = refl
cleared-Consistent read c h write = h write
cleared-Consistent write c h read = h read
cleared-Consistent write c h write = refl

after_schedule-Waits : (x : EventContext) → Waits x → after_schedule x ≡ reset_context
after_schedule-Waits x (inl (f, cb, fiber)) = rw (after_schedule, cb, fiber) refl
after_schedule-Waits x (inr (cb, f, fiber)) =
    rw (after_schedule, cb) (λ i. record { scheduler = none; fiber = none; cb = cb i })

trigger_context-cleared :
    (e : Event) (c : FdContext) (x : EventContext) (s : ℕ)
    → x.scheduler ≡ some s
    → Waits x
    → trigger_context e c x ≡ ok (cleared e c, (s, task_of x))
trigger_context-cleared e c x s p w =
    let run : trigger_context e c x
        ≡ ok (
          set_context e (after_schedule x) (record c { events = without e c.events }),
          (s, task_of x),
        ) =
      rw (trigger_context, p) refl in
    run
    ∙ ap {B = Result (FdContext × (ℕ × Task))}
        (λ (y : EventContext).
          ok (set_context e y (record c { events = without e c.events }), (s, task_of x)))
        (after_schedule-Waits x w)

Fits-on : (b : Bool) (x : EventContext) → b ≡ true → Fits b x → Fits true x
Fits-on true x e h = h
Fits-on false x e h = absurd (ground (arith, e))

Fits-off : (b : Bool) (x : EventContext) → b ≡ false → Fits b x → x ≡ reset_context
Fits-off true x e h = absurd (ground (arith, e))
Fits-off false x e h = h

-- `triggerEvent` of a registered event gives what waits to its scheduler and clears the event.
pub trigger_event-cleared :
    (e : Event) (c : FdContext)
    → Consistent c
    → has e c.events ≡ true
    → (s : ℕ) × ((get_context e c).scheduler ≡ some s)
      × (trigger_event e c ≡ ok (cleared e c, (s, task_of (get_context e c))))
unfolding trigger_event
trigger_event-cleared e c h on =
    let ((s, p), w) = Fits-on (has e c.events) (get_context e c) on (h e) in
    (s, p, rw (trigger_event, on) (trigger_context-cleared e c (get_context e c) s p w))

-- `triggerEvent` of an event that is not registered fails the assertion.
pub trigger_event-fails :
    (e : Event) (c : FdContext) → has e c.events ≡ false → trigger_event e c ≡ err failed_assertion
unfolding trigger_event
trigger_event-fails e c off = rw (trigger_event, off) refl

pub free_context :
    (e : Event) (c : FdContext)
    → Consistent c
    → has e c.events ≡ false
    → is_free (get_context e c) ≡ true
free_context e c h off = rw (Fits-off (has e c.events) (get_context e c) off (h e)) refl

-- The context with the event and what is to wait for it.
abbrev pub filled_with : Event → EventContext → FdContext → FdContext
filled_with e x c = set_context e x (record c { events = with_event e c.events })

pub filled_with-Consistent :
    (e : Event) (x : EventContext) (c : FdContext)
    → Fits true x
    → Consistent c
    → Consistent (filled_with e x c)
filled_with-Consistent read x c f h read = f
filled_with-Consistent read x c f h write = h write
filled_with-Consistent write x c f h read = h read
filled_with-Consistent write x c f h write = f

-- The caller has a scheduler, and waits itself only if it executes.
abbrev pub CanWait : Caller → Option ℕ → Type 0
CanWait caller cb =
    ((s : ℕ) × (caller.scheduler ≡ some s)) × ((caller.executes ≡ true) ⊎ ((f : ℕ) × (cb ≡ some f)))

-- What waits in a context, with its scheduler.
abbrev pub waiting : EventContext → List (ℕ × Task)
waiting x = elim x.scheduler [ none ↦ [] | some s ↦ (s, task_of x) ∷ [] ]

abbrev pub waiting_in : Event → Option FdContext → List (ℕ × Task)
waiting_in e none = []
waiting_in e (some c) = waiting (get_context e c)

-- What is to wait after `addEvent`.
abbrev pub asked : Caller → Option ℕ → List (ℕ × Task)
asked caller cb = elim caller.scheduler [
  | none ↦ []
  | some s ↦ (s, elim cb [ some f ↦ runs_cb f | none ↦ runs_fiber (some caller.fiber) ]) ∷ []
]

pub filled-Fits :
    (caller : Caller) (cb : Option ℕ)
    → CanWait caller cb
    → Returns (filled caller cb) (λ x. Fits true x × (waiting x ≡ asked caller cb))
filled-Fits caller (some f) (s, w) = (
  record { scheduler = caller.scheduler; fiber = none; cb = some f },
  refl,
  ((s, inl (f, refl, refl)), refl),
)
filled-Fits caller none (s, inl w) = (
  record { scheduler = caller.scheduler; fiber = some caller.fiber; cb = none },
  rw (filled, w) refl,
  ((s, inr (refl, caller.fiber, refl)), refl),
)
filled-Fits caller none (s, inr (f, e)) = absurd (ground (arith, e))

-- How many events of the context are registered.
abbrev pub weight : FdContext → ℕ
weight c = (if c.events.reads then 1 else 0) + (if c.events.writes then 1 else 0)

pub weight-cleared :
    (e : Event) (c : FdContext) → has e c.events ≡ true → weight c ≡ weight (cleared e c) + 1
weight-cleared read c h = ground arith
weight-cleared write c h = ground arith

pub weight-filled_with :
    (e : Event) (x : EventContext) (c : FdContext)
    → has e c.events ≡ false
    → weight (filled_with e x c) ≡ weight c + 1
weight-filled_with read x c h = ground arith
weight-filled_with write x c h = ground arith
