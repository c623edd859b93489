-- ===== src/Hook/Io.antt =====
-- `do_io` and `connect_with_timeout` of myhttp/hook.cpp, over what the system calls, the event loop
-- and the timers answer.
pub mod Blocking
use http_practice.Prelude.{
  ℕ, zero, suc, ◌+◌, Bool, true, false, not, ◌&&◌, ◌||◌, List, [], ◌∷◌, ◌++◌, Option, none, some,
  ◌==◌, if◌then◌else◌,
}
use http_practice.Prelude.Int.{ℤ, pos, negsuc}
use http_practice.FdManager.Contexts.{FdCtx, no_timeout, get_timeout}

abbrev pub eintr : ℕ
eintr = 4

abbrev pub ebadf : ℕ
ebadf = 9

abbrev pub eagain : ℕ
eagain = 11

abbrev pub etimedout : ℕ
etimedout = 110

abbrev pub einprogress : ℕ
einprogress = 115

-- What a call returns, and errno behind it.
abbrev pub Answer : Type 0
Answer = ℤ × ℕ

-- `n == -1 && errno == code`.
abbrev pub failed_with : ℕ → Answer → Bool
failed_with code (pos n, e) = false
failed_with code (negsuc zero, e) = e == code
failed_with code (negsuc (suc n), e) = false

abbrev pub minus_one : ℤ
minus_one = negsuc 0

-- The answers by their number: of the original function, of addEvent, with errno where it fails,
-- and whether the fiber is woken behind the timer's callback, which sets `cancelled`.
pub record Io : Type 0 where
  pub call : ℕ → Answer
  pub registers : ℕ → Answer
  pub fired : ℕ → Bool

pub data Action : Type 0 where
  armed : ℕ → Action
  disarmed registered yielded : Action

pub record Done : Type 0 where
  pub answer : Answer
  pub calls : ℕ
  pub actions : List Action

abbrev pub does : List Action → Option Done → Option Done
does cs none = none
does cs (some d) = some (record d { actions = cs ++ d.actions })

abbrev pub ends_in : Answer → ℕ → Option Done
ends_in a k = some (record { answer = a; calls = k; actions = [] })

abbrev pub is_timed : ℕ → Bool
is_timed to = not (to == no_timeout)

abbrev pub arms : ℕ → List Action
arms to = if is_timed to then armed to ∷ [] else []

abbrev pub disarms : ℕ → List Action
disarms to = if is_timed to then disarmed ∷ [] else []

abbrev pub is_zero : Answer → Bool
is_zero (pos zero, e) = true
is_zero (pos (suc n), e) = false
is_zero (negsuc n, e) = false

-- Behind the wait: a timer that fired, or the next try.
abbrev pub woken : Io → ℕ → ℕ → ℕ → Option Done → Option Done
woken io to k w next =
    does (disarms to) (if is_timed to && io.fired w then ends_in (minus_one, etimedout) k else next)

-- The branch for EAGAIN: the timer, the event and the wait.
abbrev pub waiting : Io → ℕ → ℕ → ℕ → Option Done → Option Done
waiting io to k w next = does (arms to) (
    if is_zero (io.registers w)
    then does (registered ∷ yielded ∷ []) (woken io to k w next)
    else does (disarms to) (ends_in (minus_one, (io.registers w).1) k))

-- From `retry` on, with so many calls and waits behind, on fuel: the calls. The loop for EINTR and
-- the way back to `retry` both call the function again.
unfoldable pub retry : ℕ → Io → ℕ → ℕ → ℕ → Option Done
retry zero io to k w = none
retry (suc n) io to k w =
    let again = retry n io to (k + 1) w in
    let blocked = waiting io to (k + 1) w (retry n io to (k + 1) (w + 1)) in
    if failed_with eintr (io.call k)
    then again
    else if failed_with eagain (io.call k)
    then blocked
    else ends_in (io.call k) (k + 1)

-- `do_io` for the context that the table has of the descriptor; `receives` is SO_RCVTIMEO.
abbrev pub through : Io → Option Done
through io = ends_in (io.call 0) 1

unfoldable pub do_io : ℕ → Io → Bool → Option FdCtx → Bool → Option Done
unfolding retry get_timeout
do_io fuel io hook_enable none receives = through io
do_io fuel io hook_enable (some ctx) receives =
    let hooked = retry fuel io (get_timeout receives ctx) 0 0 in
    if not hook_enable
    then through io
    else if ctx.is_closed
    then ends_in (minus_one, ebadf) 0
    else if not ctx.is_socket || ctx.user_nonblock
    then through io
    else hooked

-- `connect_with_timeout`: what `getsockopt` answers, and the error it stores.
abbrev socket_error : Answer → ℕ → Option Done
socket_error answer code =
    if failed_with answer.1 answer
    then ends_in (minus_one, answer.1) 1
    else if code == 0
    then ends_in (pos 0, answer.1) 1
    else ends_in (minus_one, code) 1

abbrev in_progress : Io → ℕ → Answer → ℕ → Option Done
in_progress io timeout_ms answer code = does (arms timeout_ms) (
    if is_zero (io.registers 0)
    then does (registered ∷ yielded ∷ []) (woken io timeout_ms 1 0 (socket_error answer code))
    else does (disarms timeout_ms) (socket_error answer code))

unfoldable pub connect_with_timeout : Io → Bool → Option FdCtx → ℕ → Answer → ℕ → Option Done
connect_with_timeout io hook_enable none timeout_ms answer code =
    if not hook_enable then through io else ends_in (minus_one, ebadf) 0
connect_with_timeout io hook_enable (some ctx) timeout_ms answer code =
    let connecting = in_progress io timeout_ms answer code in
    if not hook_enable
    then through io
    else if ctx.is_closed
    then ends_in (minus_one, ebadf) 0
    else if not ctx.is_socket || ctx.user_nonblock
    then through io
    else if failed_with einprogress (io.call 0)
    then connecting
    else through io
