-- ===== src/Timer/Tests.antt =====
-- The theorems about myhttp/timer.cpp at concrete timers, and runs of the code.
use http_practice.Prelude.{◌≡◌, refl, true, false, [], ◌∷◌, some, none, arith, ◌<◌, ◌⊎◌}
use http_practice.Prelude.Results.{Returns}
use http_practice.Timer.Order.{calls, on_timer, comparator}
use http_practice.Timer.Manager.{
  TimerManager, new_manager, add, add_timer, get_next_timer, list_expired_cb, is_rollover,
  run_callback,
}
use http_practice.Timer.Invariant.{IsValid, new_manager-IsValid, add_timer-IsValid}
use http_practice.Timer.Expired.{is_due, Expired}
use http_practice.Timer.Poll.{list_expired_cb-Expired}
use http_practice.Timer.Calls.{adds, cancels, calls_all, calls_all-IsValid}
use http_practice.Timer.Wakeup.{NoneBefore, get_next_timer-wakes}

-- A timer of 30 ms at 7, and a recurring one of 10 ms at 9.
abbrev one : TimerManager
one = add_timer 100 30 (some (calls 1)) false 7 (new_manager 100)

abbrev two : TimerManager
two = add_timer 100 10 (some (on_timer 5 2)) true 9 one

one-IsValid : IsValid one
one-IsValid =
    add_timer-IsValid 100 30 (some (calls 1)) false 7 (new_manager 100) refl
      (new_manager-IsValid 100)

two-IsValid : IsValid two
unfolding add_timer add comparator
two-IsValid = add_timer-IsValid 100 10 (some (on_timer 5 2)) true 9 one refl one-IsValid

two_in_order : two.timers ≡ 9 ∷ 7 ∷ []
unfolding add_timer add comparator
two_in_order = refl

rolls_back : is_rollover 10000000 5 ≡ true
rolls_back = refl

runs_alive : run_callback (λ w. true) (on_timer 5 2) ≡ 2 ∷ []
runs_alive = refl

calls_all-IsValid_example :
    Returns
      (calls_all
        (adds 100 30 (some (calls 1)) false 7 ∷ cancels 7 ∷ cancels 7 ∷ [])
        (new_manager 100))
      IsValid
unfolding add_timer add
calls_all-IsValid_example =
    calls_all-IsValid (adds 100 30 (some (calls 1)) false 7 ∷ cancels 7 ∷ cancels 7 ∷ [])
      (new_manager 100) (refl, λ m' e. (tt, λ m2 e2. (tt, λ m3 e3. tt))) (new_manager-IsValid 100)

list_expired_cb-Expired_example :
    Returns (list_expired_cb 120 50 two) (Expired 120 (is_due (is_rollover 100 120) 120 50 two) two)
unfolding add_timer add comparator
list_expired_cb-Expired_example = list_expired_cb-Expired 120 50 two refl two-IsValid

get_next_timer-wakes_example :
    Returns
      (calls_all (adds 101 5 none false 3 ∷ []) (get_next_timer 100 (new_manager 100)).1)
      (λ m'. (0 < m'.wakeups) ⊎ NoneBefore 500 m')
unfolding get_next_timer
get_next_timer-wakes_example =
    get_next_timer-wakes 100 500 (adds 101 5 none false 3 ∷ []) (new_manager 100)
      (new_manager-IsValid 100) (λ b i. absurd (ground (arith, i))) (refl, λ m' e. tt)
