-- ===== src/Hook/Io/Blocking.antt =====
-- How `do_io` of myhttp/hook.cpp ends on a socket that its user takes for a blocking one.
use mathlib.Core.Path.{transport}
use http_practice.Prelude.{
  ℕ, zero, suc, ◌+◌, ◌<◌, ◌≡◌, refl, sym, ap, ◌∙◌, ◌⊎◌, Bool, true, false, not, ◌&&◌, ◌||◌, List,
  [], ◌∷◌, Option, none, some, arith, inl, inr, Bool-cases, if◌then◌else◌,
}
use http_practice.FdManager.Contexts.{FdCtx, get_timeout}
use http_practice.Hook.Io.{
  eintr, eagain, etimedout, Answer, failed_with, minus_one, Io, Action, armed, disarmed, registered,
  yielded, Done, does, ends_in, is_timed, is_zero, waiting, retry, do_io,
}

-- Timers armed and timers disarmed.
abbrev pub arming : List Action → ℕ
arming [] = 0
arming (armed to ∷ cs) = suc (arming cs)
arming (disarmed ∷ cs) = arming cs
arming (registered ∷ cs) = arming cs
arming (yielded ∷ cs) = arming cs

abbrev pub disarming : List Action → ℕ
disarming [] = 0
disarming (disarmed ∷ cs) = suc (disarming cs)
disarming (armed to ∷ cs) = disarming cs
disarming (registered ∷ cs) = disarming cs
disarming (yielded ∷ cs) = disarming cs

-- An answer behind which the function is called again.
abbrev pub retried : Io → ℕ → Bool
retried io k = failed_with eintr (io.call k) || failed_with eagain (io.call k)

-- The answer of the last call, which is neither EINTR nor EAGAIN, a time-out, or what addEvent left.
abbrev pub IsEnd : Io → ℕ → Done → Type 0
IsEnd io to d =
    (((k : ℕ) × (d.calls ≡ k + 1) × (d.answer ≡ io.call k) × (retried io k ≡ false))
      ⊎ ((d.answer ≡ (minus_one, etimedout)) × (is_timed to ≡ true))
      ⊎ ((w : ℕ) × (d.answer ≡ (minus_one, (io.registers w).1))
          × (is_zero (io.registers w) ≡ false)))
    × (arming d.actions ≡ disarming d.actions)

abbrev pub Ended : Io → ℕ → Option Done → Type 0
Ended io to none = ⊥
Ended io to (some d) = IsEnd io to d

-- One round that waits, and what follows it.
timed_round :
    (io : Io) (to k w : ℕ) (z f : Bool) (next : Option Done)
    → is_timed to ≡ true
    → z ≡ is_zero (io.registers w)
    → Ended io to next
    → Ended io to (
        does (armed to ∷ []) (
          if z
          then does
              (registered ∷ yielded ∷ [])
              (does (disarmed ∷ []) (if f then ends_in (minus_one, etimedout) k else next))
          else does (disarmed ∷ []) (ends_in (minus_one, (io.registers w).1) k)))
timed_round io to k w true true next h e n = (inr (inl (refl, h)), refl)
timed_round io to k w true false none h e n = absurd n
timed_round io to k w true false (some d) h e (n, b) = (n, ap suc b)
timed_round io to k w false f next h e n = (inr (inr (w, refl, sym e)), refl)

untimed_round :
    (io : Io) (to k w : ℕ) (z : Bool) (next : Option Done)
    → z ≡ is_zero (io.registers w)
    → Ended io to next
    → Ended io to (
        does [] (
          if z
          then does (registered ∷ yielded ∷ []) (does [] next)
          else does [] (ends_in (minus_one, (io.registers w).1) k)))
untimed_round io to k w true none e n = absurd n
untimed_round io to k w true (some d) e n = n
untimed_round io to k w false next e n = (inr (inr (w, refl, sym e)), refl)

waiting-Ended :
    (io : Io) (to k w : ℕ) (next : Option Done)
    → Ended io to next
    → Ended io to (waiting io to k w next)
waiting-Ended io to k w next n = elim (Bool-cases (is_timed to)) [
  | inl x ↦ rw x (timed_round io to k w (is_zero (io.registers w)) (io.fired w) next x refl n)
  | inr x ↦ rw x (untimed_round io to k w (is_zero (io.registers w)) next refl n)
]

abbrev pub answer_of : Option Done → Option (Answer × ℕ)
answer_of none = none
answer_of (some d) = some (d.answer, d.calls)

answer_of-does : (cs : List Action) (o : Option Done) → answer_of (does cs o) ≡ answer_of o
answer_of-does cs none = refl
answer_of-does cs (some d) = refl

-- Waits that nothing disturbs leave the answer to the next try.
answer_of-waiting :
    (io : Io) (to k w : ℕ) (next : Option Done)
    → is_zero (io.registers w) ≡ true
    → io.fired w ≡ false
    → answer_of (waiting io to k w next) ≡ answer_of next
answer_of-waiting io to k w next h f = elim (Bool-cases (is_timed to)) [
  | inl x ↦
      rw (x, h, f)
        (answer_of-does (armed to ∷ [])
            (does (registered ∷ yielded ∷ []) (does (disarmed ∷ []) next))
          ∙ answer_of-does (registered ∷ yielded ∷ []) (does (disarmed ∷ []) next)
          ∙ answer_of-does (disarmed ∷ []) next)
  | inr x ↦
      rw (x, h)
        (answer_of-does [] (does (registered ∷ yielded ∷ []) (does [] next))
          ∙ answer_of-does (registered ∷ yielded ∷ []) (does [] next)
          ∙ answer_of-does [] next)
]

later_tries :
    (k m : ℕ) (io : Io)
    → ((i : ℕ) → i < suc m → retried io (k + i) ≡ true)
    → (i : ℕ) → i < m
    → retried io (k + 1 + i) ≡ true
later_tries k m io h i l =
    let next : k + 1 + i ≡ k + suc i = omega arith in
    ap (retried io) next ∙ h (suc i) (omega (arith, l))

first_tries :
    (m : ℕ) (io : Io)
    → ((i : ℕ) → i < m → retried io i ≡ true)
    → (i : ℕ) → i < m
    → retried io (0 + i) ≡ true
first_tries m io h i l = let same : 0 + i ≡ i = omega arith in ap (retried io) same ∙ h i l

retry-blocks :
    (n m k w : ℕ) (io : Io) (to : ℕ)
    → ((i : ℕ) → is_zero (io.registers i) ≡ true)
    → ((i : ℕ) → io.fired i ≡ false)
    → ((i : ℕ) → i < m → retried io (k + i) ≡ true)
    → retried io (k + m) ≡ false
    → m < n
    → answer_of (retry n io to k w) ≡ some (io.call (k + m), k + m + 1)
unfolding retry
retry-blocks zero m k w io to a f h e l = absurd (omega (arith, l))
retry-blocks (suc n) zero k w io to a f h e l =
    let here : k + 0 ≡ k = omega arith in
    let over : retried io k ≡ false = ap (retried io) (sym here) ∙ e in
    let no_eintr : failed_with eintr (io.call k) ≡ false = ground (arith, over) in
    let no_eagain : failed_with eagain (io.call k) ≡ false = ground (arith, over) in
    rw (no_eintr, no_eagain, here) refl
retry-blocks (suc n) (suc m) k w io to a f h e l =
    let here : k + 0 ≡ k = omega arith in
    let next : k + 1 + m ≡ k + suc m = omega arith in
    let again : retried io k ≡ true = ap (retried io) (sym here) ∙ h 0 (omega arith) in
    let rest : ((v : ℕ)
        → answer_of (retry n io to (k + 1) v) ≡ some (io.call (k + suc m), k + suc m + 1)) =
      λ v.
        retry-blocks n m (k + 1) v io to a f (later_tries k m io h) (ap (retried io) next ∙ e)
          (omega (arith, l))
        ∙ ap (λ (j : ℕ). some (io.call j, j + 1)) next in
    elim (Bool-cases (failed_with eintr (io.call k))) [
      | inl x ↦ rw x (rest w)
      | inr x ↦
          let y : failed_with eagain (io.call k) ≡ true = ground (arith, again, x) in
          rw (x, y)
            (answer_of-waiting io to (k + 1) w (retry n io to (k + 1) (w + 1)) (a w) (f w)
              ∙ rest (w + 1))
    ]

-- However the waits end, `retry` comes to an end.
retry-Ended :
    (n m k w : ℕ) (io : Io) (to : ℕ)
    → retried io (k + m) ≡ false
    → m < n
    → Ended io to (retry n io to k w)
unfolding retry
retry-Ended zero m k w io to e l = absurd (omega (arith, l))
retry-Ended (suc n) zero k w io to e l =
    let here : k + 0 ≡ k = omega arith in
    let over : retried io k ≡ false = ap (retried io) (sym here) ∙ e in
    let no_eintr : failed_with eintr (io.call k) ≡ false = ground (arith, over) in
    let no_eagain : failed_with eagain (io.call k) ≡ false = ground (arith, over) in
    rw (no_eintr, no_eagain) ((inl (k, refl, refl, over)), refl)
retry-Ended (suc n) (suc m) k w io to e l =
    let next : k + 1 + m ≡ k + suc m = omega arith in
    let rest : ((v : ℕ) → Ended io to (retry n io to (k + 1) v)) =
      λ v. retry-Ended n m (k + 1) v io to (ap (retried io) next ∙ e) (omega (arith, l)) in
    elim (Bool-cases (failed_with eintr (io.call k))) [
      | inl x ↦ rw x (rest w)
      | inr x ↦ elim (Bool-cases (failed_with eagain (io.call k))) [
        | inl y ↦
            rw (x, y) (waiting-Ended io to (k + 1) w (retry n io to (k + 1) (w + 1)) (rest (w + 1)))
        | inr y ↦ rw (x, y) ((inl (k, refl, refl, rw (x, y) refl)), refl)
      ]
    ]

-- A descriptor that `do_io` waits for.
abbrev pub IsWaited : FdCtx → Type 0
IsWaited ctx = (ctx.is_socket && not ctx.is_closed && not ctx.user_nonblock) ≡ true

waited_for :
    (fuel : ℕ) (io : Io) (ctx : FdCtx) (receives : Bool)
    → IsWaited ctx
    → do_io fuel io true (some ctx) receives ≡ retry fuel io (get_timeout receives ctx) 0 0
unfolding do_io
waited_for fuel io ctx receives h = ground (arith, h)

-- On a socket that is not closed and that its user takes for a blocking one, where the answer
-- to some call is neither EINTR nor EAGAIN and the fuel is above the index of that call, do_io
-- ends, and with as many timers cancelled as were added: with the answer of its last call,
-- which is neither of these, with ETIMEDOUT where the descriptor has a time-out, or with the
-- errno of an addEvent that failed.
pub do_io-Ended :
    (fuel m : ℕ) (io : Io) (ctx : FdCtx) (receives : Bool)
    → IsWaited ctx
    → retried io m ≡ false
    → m < fuel
    → Ended io (get_timeout receives ctx) (do_io fuel io true (some ctx) receives)
do_io-Ended fuel m io ctx receives h over l =
    transport (ap (Ended io (get_timeout receives ctx)) (sym (waited_for fuel io ctx receives h))) (
      retry-Ended fuel m 0 0 io (get_timeout receives ctx) (ap (retried io) (omega arith) ∙ over) l)

-- On a socket that is not closed and that its user takes for a blocking one, where addEvent
-- succeeds and no timer fires, do_io gives the answer of the first call that is neither EINTR
-- nor EAGAIN, after just the calls up to it, on fuel above their index.
pub do_io-blocks :
    (fuel m : ℕ) (io : Io) (ctx : FdCtx) (receives : Bool)
    → IsWaited ctx
    → ((i : ℕ) → is_zero (io.registers i) ≡ true)
    → ((i : ℕ) → io.fired i ≡ false)
    → ((i : ℕ) → i < m → retried io i ≡ true)
    → retried io m ≡ false
    → m < fuel
    → answer_of (do_io fuel io true (some ctx) receives) ≡ some (io.call m, m + 1)
do_io-blocks fuel m io ctx receives h a f tries over l =
    ap answer_of (waited_for fuel io ctx receives h)
    ∙ retry-blocks fuel m 0 0 io (get_timeout receives ctx) a f (first_tries m io tries)
        (ap (retried io) (omega arith) ∙ over) l
    ∙ ap (λ (j : ℕ). some (io.call j, j + 1)) (omega arith)
