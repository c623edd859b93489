-- ===== src/Scheduler/Fiber.antt =====
-- `Fiber` of myhttp/fiber.h and myhttp/fiber.cpp: the state of one fiber. A swap of contexts is the
-- change of state before it; what the fiber's body does until it gives the thread back is an
-- `Outcome`.
use http_practice.Prelude.{ℕ, Bool, true, false, not, ◌&&◌, ◌||◌, Option, none, some, if◌then◌else◌}
use http_practice.Prelude.Results.{Result, ok, err, failed_assertion}

pub data State : Type 0 where
  init hold exec term ready except : State

abbrev pub is_exec : State → Bool
is_exec exec = true
is_exec _ = false

abbrev pub is_ready : State → Bool
is_ready ready = true
is_ready _ = false

-- TERM or EXCEPT.
abbrev pub is_over : State → Bool
is_over term = true
is_over except = true
is_over _ = false

abbrev pub is_term : State → Bool
is_term term = true
is_term _ = false

abbrev pub is_init : State → Bool
is_init init = true
is_init _ = false

-- A callback is a number, and a stack is there or not.
pub record Fiber : Type 0 where
  pub state : State
  pub cb : Option ℕ
  pub stack : Bool

-- `MYHTTP_ASSERT`.
abbrev pub assert {ℓ} : {A : Type ℓ} → Bool → A → Result A
assert true a = ok a
assert false a = err failed_assertion

-- The first fiber of a thread, and a fiber of a callback.
abbrev pub main_fiber : Fiber
main_fiber = record { state = exec; cb = none; stack = false }

abbrev pub new_fiber : Option ℕ → Fiber
new_fiber cb = record { state = init; cb = cb; stack = true }

abbrev pub has_cb : Option ℕ → Bool
has_cb none = false
has_cb (some c) = true

-- The assertions of the destructor.
abbrev pub destroyed : Fiber → Result Fiber
destroyed f =
    if f.stack
    then assert (is_over f.state || is_init f.state) f
    else assert (not (has_cb f.cb) && is_exec f.state) f

unfoldable pub reset : Option ℕ → Fiber → Result Fiber
reset cb f =
    assert (f.stack && (is_over f.state || is_init f.state)) (record f { state = init; cb = cb })

-- A fiber that is over goes on behind its last swapOut, at the assertion "never reach".
abbrev pub resumed : State → Fiber → Result Fiber
resumed exec f = err failed_assertion
resumed term f = err failed_assertion
resumed except f = err failed_assertion
resumed _ f = ok (record f { state = exec })

unfoldable pub swap_in : Fiber → Result Fiber
swap_in f = resumed f.state f

-- How the body gives the thread back: YieldToReady, YieldToHold, swapOut alone, its end, or an
-- exception out of it.
pub data Outcome : Type 0 where
  to_ready to_hold swaps_out returns throws : Outcome

unfoldable pub given_back : Outcome → Fiber → Fiber
given_back to_ready f = record f { state = ready }
given_back to_hold f = record f { state = hold }
given_back swaps_out f = f
given_back returns f = record f { state = term; cb = none }
given_back throws f = record f { state = except }
