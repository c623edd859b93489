-- ===== src/IoManager/Ops.antt =====
-- `addEvent`, `delEvent`, `cancelEvent`, `cancelAll` and the handling of an event in `idle` of
-- myhttp/iomanager.cpp. `accepted` is whether `epoll_ctl` gave 0.
use http_practice.Prelude.{
  ℕ, ◌+◌, ◌-◌, ◌*◌, ◌/◌, Bool, true, false, ◌&&◌, ◌||◌, not, List, ◌∷◌, Option, none, some, length,
  get_elem?, set, leb, if◌then◌else◌,
}
use http_practice.Prelude.Results.{Result, ok, err, failed_assertion, out_of_bounds, ◌>>=◌}
use http_practice.IoManager.Table.{
  Event, read, write, Mask, no_events, has, with_event, without, is_none, EventContext,
  reset_context, FdContext, get_context, set_context, Task, CtlOp, ctl_add, ctl_mod, ctl_del,
  IoManager, trigger_event, context_resize,
}

-- What a thread that calls `addEvent` runs in: `Scheduler::GetThis()`, `Fiber::GetThis()`, and
-- whether the fiber's state is EXEC.
pub record Caller : Type 0 where
  pub scheduler : Option ℕ
  pub fiber : ℕ
  pub executes : Bool

-- `fd * 1.5`, cut to a whole number.
abbrev pub room_for : ℕ → IoManager → IoManager
room_for fd m =
    if leb (length m.fd_contexts) fd
    then record m { fd_contexts = context_resize (fd * 3 / 2) m.fd_contexts }
    else m

-- `epoll_ctl` took the call with `mask`, and the context of `fd` becomes `c`.
abbrev pub commit : ℕ → CtlOp → Mask → FdContext → ℕ → List (ℕ × Task) → IoManager → IoManager
commit fd op mask c pending tasks m = record {
  fd_contexts = set m.fd_contexts fd c;
  pending = pending;
  scheduled = tasks;
  ctls = record { op = op; fd = fd; mask = mask } ∷ m.ctls;
}

abbrev pub is_free : EventContext → Bool
is_free x = elim x.scheduler [
  | some s ↦ false
  | none ↦ elim x.fiber [ some f ↦ false | none ↦ elim x.cb [ some f ↦ false | none ↦ true ] ]
]

abbrev pub filled : Caller → Option ℕ → Result EventContext
filled caller (some f) = ok record { scheduler = caller.scheduler; fiber = none; cb = some f }
filled caller none =
    if caller.executes
    then ok record { scheduler = caller.scheduler; fiber = some caller.fiber; cb = none }
    else err failed_assertion

abbrev pub add_to :
    Caller → ℕ → Event → Option ℕ → FdContext → IoManager → Result (Bool × IoManager)
add_to caller fd e cb c m =
    if is_free (get_context e c)
    then (filled caller cb >>= λ x. ok (
      true,
      commit fd (if is_none c.events then ctl_add else ctl_mod) (with_event e c.events)
          (set_context e x (record c { events = with_event e c.events })) (m.pending + 1)
          m.scheduled m,
    ))
    else err failed_assertion

abbrev pub add_in : Caller → ℕ → Event → Option ℕ → Bool → IoManager → Result (Bool × IoManager)
add_in caller fd e cb accepted m = elim (get_elem? m.fd_contexts fd) [
  | none ↦ err out_of_bounds
  | some c ↦
      if has e c.events
      then err failed_assertion
      else if accepted
      then add_to caller fd e cb c m
      else ok (false, m)
]

-- True stands for 0 and false for -1.
unfoldable pub add_event :
    Caller → ℕ → Event → Option ℕ → Bool → IoManager → Result (Bool × IoManager)
add_event caller fd e cb accepted m = add_in caller fd e cb accepted (room_for fd m)

-- `new_events ? EPOLL_CTL_MOD : EPOLL_CTL_DEL`.
abbrev pub less_op : Mask → CtlOp
less_op s = if is_none s then ctl_del else ctl_mod

unfoldable pub del_event : ℕ → Event → Bool → IoManager → Bool × IoManager
del_event fd e accepted m = elim (get_elem? m.fd_contexts fd) [
  | none ↦ (false, m)
  | some c ↦
      if has e c.events && accepted
      then (
        true,
        commit fd (less_op (without e c.events)) (without e c.events)
            (set_context e reset_context (record c { events = without e c.events })) (m.pending - 1)
            m.scheduled m,
      )
      else (false, m)
]

unfoldable pub cancel_event : ℕ → Event → Bool → IoManager → Result (Bool × IoManager)
cancel_event fd e accepted m = elim (get_elem? m.fd_contexts fd) [
  | none ↦ ok (false, m)
  | some c ↦
      if has e c.events && accepted
      then (trigger_event e c >>= λ t. ok (
        true,
        commit fd (less_op (without e c.events)) (without e c.events) t.0 (m.pending - 1)
            (t.1 ∷ m.scheduled) m,
      ))
      else ok (false, m)
]

-- `if(events & e) { triggerEvent(e); --m_pendingEventCount; }`, on a context, the count and the
-- tasks, where the test is `b`.
abbrev pub Progress : Type 0
Progress = FdContext × (ℕ × List (ℕ × Task))

abbrev pub trigger_if : Bool → Event → Progress → Result Progress
trigger_if b e p =
    if b then (trigger_event e p.0 >>= λ t. ok (t.0, (p.1.0 - 1, t.1 ∷ p.1.1))) else ok p

unfoldable pub cancel_all : ℕ → Bool → IoManager → Result (Bool × IoManager)
cancel_all fd accepted m = elim (get_elem? m.fd_contexts fd) [
  | none ↦ ok (false, m)
  | some c ↦
      if not (is_none c.events) && accepted
      then (trigger_if c.events.reads read (c, (m.pending, m.scheduled)) >>= λ p.
          trigger_if p.0.events.writes write p >>= λ q.
          if is_none q.0.events
          then ok (true, commit fd ctl_del no_events q.0 q.1.0 q.1.1 m)
          else err failed_assertion)
      else ok (false, m)
]

-- What `epoll_wait` reports of a descriptor.
pub record EpollEvent : Type 0 where
  pub input : Bool
  pub output : Bool
  pub error : Bool
  pub hang_up : Bool

abbrev pub real_events : EpollEvent → Mask
real_events e = record {
  reads = e.input || e.error || e.hang_up;
  writes = e.output || e.error || e.hang_up;
}

-- `events & ~other`, and `events & other`.
abbrev pub minus : Mask → Mask → Mask
minus s r = record { reads = s.reads && not r.reads; writes = s.writes && not r.writes }

abbrev pub both : Mask → Mask → Mask
both s r = record { reads = s.reads && r.reads; writes = s.writes && r.writes }

-- A round of the loop of `idle` over the events, for one of a descriptor of the table.
unfoldable pub handle_event : ℕ → EpollEvent → Bool → IoManager → Result IoManager
handle_event fd e accepted m = elim (get_elem? m.fd_contexts fd) [
  | none ↦ err out_of_bounds
  | some c ↦
      let real = real_events e in
      if is_none (both c.events real) || not accepted
      then ok m
      else (trigger_if real.reads read (c, (m.pending, m.scheduled)) >>= λ p.
          trigger_if real.writes write p >>= λ q.
          ok (commit fd (less_op (minus c.events real)) (minus c.events real) q.0 q.1.0 q.1.1 m))
]
