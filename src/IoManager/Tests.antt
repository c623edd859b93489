-- ===== src/IoManager/Tests.antt =====
-- The theorems about myhttp/iomanager.cpp at concrete tables, and runs of the code.
use http_practice.Prelude.{◌≡◌, refl, true, false, [], ◌∷◌, some, none, inl, arith}
use http_practice.Prelude.Results.{Returns, ok, ◌>>=◌}
use http_practice.IoManager.Table.{
  read, write, IoManager, FdContext, new_io_manager, new_context, ctl_add,
}
use http_practice.IoManager.Ops.{
  Caller, add_event, cancel_event, EpollEvent, real_events, handle_event, commit,
}
use http_practice.IoManager.Context.{filled_with, filled_with-Consistent}
use http_practice.IoManager.Invariant.{IsValid, commit-IsValid}
use http_practice.IoManager.Resize.{new_io_manager-IsValid, new_context-Consistent}
use http_practice.IoManager.Handling.{Handled, handle_event-Handled}
use http_practice.IoManager.Calls.{
  adds, dels, cancels, run_calls, run_calls-IsValid, Undone, cancel_event-add_event,
}

abbrev fiber : Caller
fiber = record { scheduler = some 1; fiber = 4; executes = true }

-- Descriptor 5 waits to be read.
abbrev context5 : FdContext
context5 = filled_with read record { scheduler = some 1; fiber = none; cb = some 9 } new_context

abbrev waits5 : IoManager
waits5 = commit 5 ctl_add context5.events context5 1 [] new_io_manager

added : add_event fiber 5 read (some 9) true new_io_manager ≡ ok (true, waits5)
unfolding add_event
added = refl

waits5-IsValid : IsValid waits5
waits5-IsValid =
    commit-IsValid new_io_manager 5 ctl_add context5.events new_context context5 1 []
      new_io_manager-IsValid refl
      (filled_with-Consistent read record { scheduler = some 1; fiber = none; cb = some 9 }
        new_context ((1, refl), inl (9, refl, refl)) new_context-Consistent)
      refl refl refl

abbrev hang_up : EpollEvent
hang_up = record { input = false; output = false; error = false; hang_up = true }

abbrev readable : EpollEvent
readable = record { input = true; output = false; error = false; hang_up = false }

run_calls-IsValid_example :
    Returns
      (run_calls
        (adds fiber 5 read (some 9) true ∷ cancels 5 read true ∷ dels 5 read true ∷ [])
        new_io_manager)
      IsValid
run_calls-IsValid_example =
    run_calls-IsValid
      (adds fiber 5 read (some 9) true ∷ cancels 5 read true ∷ dels 5 read true ∷ []) new_io_manager
      ((refl, ((1, refl), inl refl)), λ m' e. (tt, λ m2 e2. (tt, λ m3 e3. tt)))
      new_io_manager-IsValid

cancel_event-add_event_example :
    Returns
      (add_event fiber 40 write none true new_io_manager >>= λ r. cancel_event 40 write true r.1)
      (Undone fiber 40 write none new_io_manager)
cancel_event-add_event_example =
    cancel_event-add_event fiber 40 write none new_io_manager refl ((1, refl), inl refl)
      new_io_manager-IsValid

handle_event-Handled_example :
    Returns (handle_event 5 readable true waits5) (Handled 5 true (real_events readable) waits5)
handle_event-Handled_example =
    handle_event-Handled 5 readable true waits5 context5 refl
      (inl (λ h. refl, λ h. absurd (ground (arith, h)))) waits5-IsValid
