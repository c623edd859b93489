-- ===== src/IoManager/Table.antt =====
-- `IOManager::FdContext` and the table of them in myhttp/iomanager.h. `epoll_ctl` is the kernel's:
-- its answer is an argument of the operations, and the calls that it accepted are listed.
use http_practice.Prelude.{
  ℕ, ◌-◌, Bool, true, false, ◌||◌, not, List, [], ◌++◌, Option, none, some, length, replicate,
  if◌then◌else◌,
}
use http_practice.Prelude.Results.{Result, ok, err, failed_assertion, null_pointer}

-- NONE is no argument of an operation.
pub data Event : Type 0 where
  read write : Event

-- A set of events: READ is 1 and WRITE is 4, as EPOLLIN and EPOLLOUT are.
pub record Mask : Type 0 where
  pub reads : Bool
  pub writes : Bool

abbrev pub no_events : Mask
no_events = record { reads = false; writes = false }

abbrev pub has : Event → Mask → Bool
has read s = s.reads
has write s = s.writes

abbrev pub with_event : Event → Mask → Mask
with_event read s = record s { reads = true }
with_event write s = record s { writes = true }

abbrev pub without : Event → Mask → Mask
without read s = record s { reads = false }
without write s = record s { writes = false }

abbrev pub is_none : Mask → Bool
is_none s = not (s.reads || s.writes)

-- Schedulers, fibers and callbacks are numbered; null is none.
pub record EventContext : Type 0 where
  pub scheduler : Option ℕ
  pub fiber : Option ℕ
  pub cb : Option ℕ

abbrev pub reset_context : EventContext
reset_context = record { scheduler = none; fiber = none; cb = none }

-- The mutex is left out, and `fd`, which is the index in the table.
pub record FdContext : Type 0 where
  pub read_context : EventContext
  pub write_context : EventContext
  pub events : Mask

abbrev pub new_context : FdContext
new_context = record {
  read_context = reset_context;
  write_context = reset_context;
  events = no_events;
}

abbrev pub get_context : Event → FdContext → EventContext
get_context read c = c.read_context
get_context write c = c.write_context

abbrev pub set_context : Event → EventContext → FdContext → FdContext
set_context read x c = record c { read_context = x }
set_context write x c = record c { write_context = x }

-- What is given to a scheduler.
pub data Task : Type 0 where
  runs_cb : ℕ → Task
  runs_fiber : Option ℕ → Task

pub data CtlOp : Type 0 where
  ctl_add ctl_mod ctl_del : CtlOp

pub record EpollCtl : Type 0 where
  pub op : CtlOp
  pub fd : ℕ
  pub mask : Mask

-- `scheduled` and `ctls` have the last call first.
pub record IoManager : Type 0 where
  pub fd_contexts : List FdContext
  pub pending : ℕ
  pub scheduled : List (ℕ × Task)
  pub ctls : List EpollCtl

-- `schedule(&ctx.cb)` and `schedule(&ctx.fiber)` swap the pointer out of the context.
abbrev pub task_of : EventContext → Task
task_of x = elim x.cb [ some f ↦ runs_cb f | none ↦ runs_fiber x.fiber ]

abbrev pub after_schedule : EventContext → EventContext
after_schedule x = elim x.cb [
  | some f ↦ record x { scheduler = none; cb = none }
  | none ↦ record x { scheduler = none; fiber = none }
]

abbrev pub trigger_context : Event → FdContext → EventContext → Result (FdContext × (ℕ × Task))
trigger_context e c x = elim x.scheduler [
  | none ↦ err null_pointer
  | some s ↦
      ok (
        set_context e (after_schedule x) (record c { events = without e c.events }),
        (s, task_of x),
      )
]

unfoldable pub trigger_event : Event → FdContext → Result (FdContext × (ℕ × Task))
trigger_event e c =
    if has e c.events then trigger_context e c (get_context e c) else err failed_assertion

-- Of the contexts that are there, none is null.
abbrev pub context_resize : ℕ → List FdContext → List FdContext
context_resize size cs = cs ++ replicate (size - length cs) new_context

-- The constructor resizes the table to 32.
abbrev pub new_io_manager : IoManager
new_io_manager = record {
  fd_contexts = context_resize 32 [];
  pending = 0;
  scheduled = [];
  ctls = [];
}
