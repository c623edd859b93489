-- ===== src/IoManager/Adding.antt =====
-- `addEvent` of myhttp/iomanager.cpp on a valid table.
use http_practice.Prelude.{
  ℕ, ◌+◌, ◌-◌, ◌*◌, ◌/◌, leb, length, ◌≡◌, refl, ap, ◌∙◌, sym, Bool, true, false, List, Option,
  none, some, arith, get_elem?, get_elem?-set_self, if◌then◌else◌, inl, inr, Bool-cases,
}
use http_practice.Prelude.Results.{Returns}
use http_practice.IoManager.Table.{
  Event, read, write, Mask, has, with_event, without, is_none, FdContext, EventContext, new_context,
  get_context, CtlOp, ctl_add, ctl_mod, ctl_del, IoManager, Task,
}
use http_practice.IoManager.Ops.{Caller, room_for, commit, add_to, add_in, add_event, less_op}
use http_practice.IoManager.Context.{
  waiting, waiting_in, asked, cleared, free_context, filled_with, filled_with-Consistent, CanWait,
  filled-Fits, weight-filled_with,
}
use http_practice.IoManager.Invariant.{IsValid, watched, op_fits, commit-IsValid, get_elem?-inside}
use http_practice.IoManager.Resize.{get_elem?-resize, room_for-IsValid}

-- Whether the event of the descriptor is registered.
abbrev pub registered_in : Event → Option FdContext → Bool
registered_in e none = false
registered_in e (some c) = has e c.events

abbrev pub registered : Event → ℕ → IoManager → Bool
registered e fd m = registered_in e (get_elem? m.fd_contexts fd)

new_registered : (e : Event) → registered_in e none ≡ registered_in e (some new_context)
new_registered read = refl
new_registered write = refl

registered-room_for :
    (e : Event) (fd : ℕ) (m : IoManager) → registered e fd (room_for fd m) ≡ registered e fd m
registered-room_for e fd m = elim (Bool-cases (leb (length m.fd_contexts) fd)) [
  | inr inside ↦ rw inside refl
  | inl outside ↦ rw outside (
      get_elem?-resize (registered_in e) (fd * 3 / 2 - length m.fd_contexts) m.fd_contexts fd
        (new_registered e))
]

pub registered-at :
    (e : Event) (fd : ℕ) (m : IoManager) (c : FdContext)
    → get_elem? m.fd_contexts fd ≡ some c
    → registered e fd m ≡ has e c.events
registered-at e fd m c at = rw at refl

-- The call to `epoll_ctl` that `addEvent` makes, and the one that takes an event away.
more_fits :
    (e : Event) (x : EventContext) (c : FdContext)
    → (op_fits (if is_none c.events then ctl_add else ctl_mod) (watched (some c)) ≡ true)
      × (elim (if is_none c.events then ctl_add else ctl_mod) [
        | ctl_del ↦ none
        | _ ↦ some (with_event e c.events)
      ]
          ≡ watched (some (filled_with e x c)))
more_fits read x c = (ground arith, ground arith)
more_fits write x c = (ground arith, ground arith)

pub less_fits :
    (e : Event) (c : FdContext)
    → has e c.events ≡ true
    → (op_fits (less_op (without e c.events)) (watched (some c)) ≡ true)
      × (elim (less_op (without e c.events)) [ ctl_del ↦ none | _ ↦ some (without e c.events) ]
          ≡ watched (some (cleared e c)))
less_fits read c h = (ground arith, ground arith)
less_fits write c h = (ground arith, ground arith)

-- After `addEvent` of an event that was not registered.
pub record Added (caller : Caller) (fd : ℕ) (e : Event) (cb : Option ℕ) (accepted : Bool)
    (m : IoManager) (r : Bool × IoManager) : Type 0 where
  pub answer : r.0 ≡ accepted
  pub valid : IsValid r.1
  pub now : registered e fd r.1 ≡ accepted
  pub pending : r.1.pending ≡ m.pending + (if accepted then 1 else 0)
  pub scheduled : r.1.scheduled ≡ m.scheduled
  pub waits : accepted ≡ true → waiting_in e (get_elem? r.1.fd_contexts fd) ≡ asked caller cb

get_context-filled_with :
    (e : Event) (x : EventContext) (c : FdContext) → get_context e (filled_with e x c) ≡ x
get_context-filled_with read x c = refl
get_context-filled_with write x c = refl

has-filled_with :
    (e : Event) (x : EventContext) (c : FdContext) → has e (filled_with e x c).events ≡ true
has-filled_with read x c = refl
has-filled_with write x c = refl

pub has-cleared : (e : Event) (c : FdContext) → has e (cleared e c).events ≡ false
has-cleared read c = refl
has-cleared write c = refl

pub registered-commit :
    (e : Event) (fd : ℕ) (op : CtlOp) (mask : Mask) (c c' : FdContext) (pending : ℕ)
    (tasks : List (ℕ × Task)) (m : IoManager)
    → get_elem? m.fd_contexts fd ≡ some c
    → registered e fd (commit fd op mask c' pending tasks m) ≡ has e c'.events
registered-commit e fd op mask c c' pending tasks m at =
    rw (get_elem?-set_self m.fd_contexts fd c' (get_elem?-inside m.fd_contexts fd c at)) refl

add_in-Added :
    (caller : Caller) (fd : ℕ) (e : Event) (cb : Option ℕ) (accepted : Bool) (m : IoManager)
    (c : FdContext)
    → get_elem? m.fd_contexts fd ≡ some c
    → has e c.events ≡ false
    → CanWait caller cb
    → IsValid m
    → Returns (add_in caller fd e cb accepted m) (Added caller fd e cb accepted m)
add_in-Added caller fd e cb false m c at off w v = (
  (false, m),
  rw (add_in, at, off) refl,
  record {
    answer = refl;
    valid = v;
    now = registered-at e fd m c at ∙ off;
    pending = omega arith;
    scheduled = refl;
    waits = λ h. absurd (ground (arith, h));
  },
)
add_in-Added caller fd e cb true m c at off w v =
    let (x, run, (f, q)) = filled-Fits caller cb w in
    let free = free_context e c (v.consistent fd c at) off in
    let op = if is_none c.events then ctl_add else ctl_mod in
    let (fits, told) = more_fits e x c in
    let grown = weight-filled_with e x c off in
    (
      (
        true,
        commit fd op (with_event e c.events) (filled_with e x c) (m.pending + 1) m.scheduled m,
      ),
      rw (add_in, at, off, add_to, free, run) refl,
      record {
        answer = refl;
        valid =
            commit-IsValid m fd op (with_event e c.events) c (filled_with e x c) (m.pending + 1)
              m.scheduled v at (filled_with-Consistent e x c f (v.consistent fd c at))
              (omega (arith, grown)) fits told;
        now =
            registered-commit e fd op (with_event e c.events) c (filled_with e x c) (m.pending + 1)
              m.scheduled m at
            ∙ has-filled_with e x c;
        pending = refl;
        scheduled = refl;
        waits = λ h.
            rw
              (get_elem?-set_self m.fd_contexts fd (filled_with e x c)
                (get_elem?-inside m.fd_contexts fd c at))
              (ap waiting (get_context-filled_with e x c) ∙ q);
      },
    )

-- addEvent of an event that is not registered, on a valid table, by a caller with a scheduler
-- that gives a callback or executes, fails no assertion and says whether epoll_ctl accepted;
-- if so the event is registered and counted, and the callback or the fiber waits; nothing is
-- scheduled, and the table, grown if the descriptor was not in it, is valid.
pub add_event-Added :
    (caller : Caller) (fd : ℕ) (e : Event) (cb : Option ℕ) (accepted : Bool) (m : IoManager)
    → registered e fd m ≡ false
    → CanWait caller cb
    → IsValid m
    → Returns (add_event caller fd e cb accepted m) (Added caller fd e cb accepted m)
unfolding add_event
add_event-Added caller fd e cb accepted m off w v =
    let (v', (c, at)) = room_for-IsValid fd m v in
    let (r, run, a) =
      add_in-Added caller fd e cb accepted (room_for fd m) c at
        (sym (registered-at e fd (room_for fd m) c at) ∙ registered-room_for e fd m ∙ off) w v' in
    (
      r,
      run,
      record {
        answer = a.answer;
        valid = a.valid;
        now = a.now;
        pending = a.pending ∙ ap (λ k. k + (if accepted then 1 else 0)) (room_for-pending fd m);
        scheduled = a.scheduled ∙ room_for-scheduled fd m;
        waits = a.waits;
      },
    )
  where
    room_for-pending : (fd : ℕ) (m : IoManager) → (room_for fd m).pending ≡ m.pending
    room_for-pending fd m = elim (Bool-cases (leb (length m.fd_contexts) fd)) [
      | inl out ↦ rw out refl
      | inr inside ↦ rw inside refl
    ]

    room_for-scheduled : (fd : ℕ) (m : IoManager) → (room_for fd m).scheduled ≡ m.scheduled
    room_for-scheduled fd m = elim (Bool-cases (leb (length m.fd_contexts) fd)) [
      | inl out ↦ rw out refl
      | inr inside ↦ rw inside refl
    ]
