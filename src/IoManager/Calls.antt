-- ===== src/IoManager/Calls.antt =====
-- Sequences of calls of the event table of myhttp/iomanager.cpp, in any order.
use http_practice.Prelude.{
  ℕ, ◌≡◌, refl, ◌∙◌, Bool, true, false, List, [], ◌∷◌, ◌++◌, Option, some, arith, get_elem?, ◌⊎◌,
}
use http_practice.Prelude.Results.{Result, ok, ◌>>=◌, Returns}
use http_practice.IoManager.Table.{Event, FdContext, IoManager, is_none}
use http_practice.IoManager.Ops.{
  Caller, add_event, del_event, cancel_event, cancel_all, EpollEvent, real_events, both,
  handle_event,
}
use http_practice.IoManager.Context.{CanWait, asked}
use http_practice.IoManager.Invariant.{IsValid}
use http_practice.IoManager.Adding.{registered, add_event-Added}
use http_practice.IoManager.Removing.{del_event-Removed, cancel_event-Removed}
use http_practice.IoManager.Triggering.{cancel_all-AllCancelled}
use http_practice.IoManager.Handling.{Expected, handle_event-Handled}

-- A call, with the answer of `epoll_ctl`.
pub data Call : Type 0 where
  adds : Caller → ℕ → Event → Option ℕ → Bool → Call
  dels : ℕ → Event → Bool → Call
  cancels : ℕ → Event → Bool → Call
  cancels_all : ℕ → Bool → Call
  handles : ℕ → EpollEvent → Bool → Call

abbrev pub call : Call → IoManager → Result IoManager
call (adds caller fd e cb accepted) m = add_event caller fd e cb accepted m >>= λ r. ok r.1
call (dels fd e accepted) m = ok (del_event fd e accepted m).1
call (cancels fd e accepted) m = cancel_event fd e accepted m >>= λ r. ok r.1
call (cancels_all fd accepted) m = cancel_all fd accepted m >>= λ r. ok r.1
call (handles fd e accepted) m = handle_event fd e accepted m

abbrev pub run_calls : List Call → IoManager → Result IoManager
run_calls [] m = ok m
run_calls (c ∷ cs) m = call c m >>= run_calls cs

-- Where a call may be made: an event is added once, by a caller that can wait, and the kernel
-- reports of a descriptor of the table only what is registered, or nothing of it.
abbrev pub IsFine : Call → IoManager → Type 0
IsFine (adds caller fd e cb accepted) m = (registered e fd m ≡ false) × CanWait caller cb
IsFine (handles fd e accepted) m =
    (c : FdContext) × (get_elem? m.fd_contexts fd ≡ some c)
    × (Expected c.events (real_events e) ⊎ (is_none (both c.events (real_events e)) ≡ true))
IsFine _ m = Unit {0}

abbrev pub AllFine : List Call → IoManager → Type 0
AllFine [] m = Unit {0}
AllFine (c ∷ cs) m = IsFine c m × ((m' : IoManager) → call c m ≡ ok m' → AllFine cs m')

call-IsValid : (c : Call) (m : IoManager) → IsFine c m → IsValid m → Returns (call c m) IsValid
call-IsValid (adds caller fd e cb accepted) m (off, w) v =
    let (r, run, a) = add_event-Added caller fd e cb accepted m off w v in
    (r.1, rw run refl, a.valid)
call-IsValid (dels fd e accepted) m f v =
    ((del_event fd e accepted m).1, refl, (del_event-Removed fd e accepted m v).valid)
call-IsValid (cancels fd e accepted) m f v =
    let (r, run, a) = cancel_event-Removed fd e accepted m v in (r.1, rw run refl, a.valid)
call-IsValid (cancels_all fd accepted) m f v =
    let (r, run, a) = cancel_all-AllCancelled fd accepted m v in (r.1, rw run refl, a.valid)
call-IsValid (handles fd e accepted) m (c, at, fine) v =
    let (m', run, h) = handle_event-Handled fd e accepted m c at fine v in (m', run, h.valid)

-- Any sequence of addEvent, delEvent, cancelEvent and cancelAll calls and of events that idle
-- handles, from a valid table, ends normally in a valid table, whatever epoll_ctl answers,
-- where an event is added only while it is not registered, by a caller with a scheduler that
-- gives a callback or executes, and the kernel reports of a descriptor of the table only
-- registered events or none of them. Valid: exactly the registered events have something that
-- waits, the pending count is theirs, and the accepted calls of epoll_ctl fit one another and
-- leave the kernel watching what the table says.
pub run_calls-IsValid :
    (cs : List Call) (m : IoManager) → AllFine cs m → IsValid m → Returns (run_calls cs m) IsValid
run_calls-IsValid [] m f v = (m, refl, v)
run_calls-IsValid (c ∷ cs) m f v =
    let (m', run, v') = call-IsValid c m f.0 v in
    let (m'', run', w) = run_calls-IsValid cs m' (f.1 m' run) v' in (m'', rw run run', w)

-- What `cancelEvent` leaves of what `addEvent` did.
pub record Undone (caller : Caller) (fd : ℕ) (e : Event) (cb : Option ℕ) (m : IoManager)
    (r : Bool × IoManager) : Type 0 where
  pub answer : r.0 ≡ true
  pub scheduled : r.1.scheduled ≡ asked caller cb ++ m.scheduled
  pub pending : r.1.pending ≡ m.pending
  pub now : registered e fd r.1 ≡ false

-- On a valid table, cancelEvent after addEvent of an event that was not registered, both
-- accepted by epoll_ctl, by a caller with a scheduler that gives a callback or executes, ends
-- normally and gives the callback, or the calling fiber, to that scheduler once; the pending
-- count is the old one and the event is not registered.
pub cancel_event-add_event :
    (caller : Caller) (fd : ℕ) (e : Event) (cb : Option ℕ) (m : IoManager)
    → registered e fd m ≡ false
    → CanWait caller cb
    → IsValid m
    → Returns
        (add_event caller fd e cb true m >>= λ r. cancel_event fd e true r.1)
        (Undone caller fd e cb m)
cancel_event-add_event caller fd e cb m off w v =
    let (r, run, a) = add_event-Added caller fd e cb true m off w v in
    let (r', run', b) = cancel_event-Removed fd e true r.1 a.valid in
    let done : r'.0 ≡ true = b.answer ∙ rw a.now refl in
    (
      r',
      rw run run',
      record {
        answer = done;
        scheduled = b.scheduled ∙ rw (done, a.waits refl, a.scheduled) refl;
        pending = let k = b.pending in ground (arith, k, done, a.pending);
        now = b.now ∙ rw a.now refl;
      },
    )
