-- ===== src/Hook/Flags.antt =====
-- `fcntl`, `ioctl`, `setsockopt` and the sleeps of myhttp/hook.cpp: what they note in the context of
-- a descriptor, and what they hand on to the system.
use http_practice.Prelude.{
  ℕ, ◌+◌, ◌-◌, ◌*◌, ◌/◌, ◌%◌, ◌^◌, ◌≡◌, refl, ap, ◌∙◌, Bool, true, false, not, ◌&&◌, ◌||◌, Option,
  none, some, arith, ltb, ◌==◌, if◌then◌else◌,
}
use http_practice.Prelude.Int.{ℤ, pos, negsuc}
use http_practice.FdManager.Contexts.{FdCtx, set_timeout}

-- O_NONBLOCK, and `&`, `|` with it and `& ~` of it, on a flags word that is not negative.
abbrev pub o_nonblock : ℕ
o_nonblock = 2048

abbrev pub is_nonblock : ℕ → Bool
is_nonblock x = x / o_nonblock % 2 == 1

abbrev set_nonblock : ℕ → ℕ
set_nonblock x = if is_nonblock x then x else x + o_nonblock

abbrev clear_nonblock : ℕ → ℕ
clear_nonblock x = if is_nonblock x then x - o_nonblock else x

-- A context that the calls heed.
abbrev pub is_heeded : FdCtx → Bool
is_heeded ctx = not ctx.is_closed && ctx.is_socket

-- `F_SETFL`: the context, and the flags that the system gets.
unfoldable pub fcntl_set : Option FdCtx → ℕ → Option FdCtx × ℕ
fcntl_set none arg = (none, arg)
fcntl_set (some ctx) arg =
    if is_heeded ctx
    then (
      some (record ctx { user_nonblock = is_nonblock arg }),
      if ctx.sys_nonblock then set_nonblock arg else clear_nonblock arg,
    )
    else (some ctx, arg)

-- The flags on what the system answers, which is -1 if it fails.
abbrev masked_flags : Bool → ℤ → ℤ
masked_flags nonblock (pos n) = pos (if nonblock then set_nonblock n else clear_nonblock n)
masked_flags nonblock (negsuc n) = if nonblock then negsuc n else negsuc (n + o_nonblock)

-- `F_GETFL`.
unfoldable pub fcntl_get : Option FdCtx → ℤ → ℤ
fcntl_get none answer = answer
fcntl_get (some ctx) answer =
    if is_heeded ctx then masked_flags ctx.user_nonblock answer else answer

-- `ioctl` with FIONBIO: the flag goes on to the system as it is.
unfoldable pub ioctl_nonblock : Option FdCtx → ℕ → Option FdCtx × Bool
ioctl_nonblock none arg = (none, not (arg == 0))
ioctl_nonblock (some ctx) arg =
    let wanted = not (arg == 0) in
    if is_heeded ctx
    then (some (record ctx { user_nonblock = wanted }), wanted)
    else (some ctx, wanted)

abbrev pub so_rcvtimeo : ℕ
so_rcvtimeo = 20

abbrev pub so_sndtimeo : ℕ
so_sndtimeo = 21

abbrev pub sol_socket : ℕ
sol_socket = 1

abbrev timed_context : ℕ → ℕ → ℕ → Option FdCtx → Option FdCtx
timed_context optname tv_sec tv_usec none = none
timed_context optname tv_sec tv_usec (some ctx) =
    some (set_timeout (optname == so_rcvtimeo) ((tv_sec * 1000 + tv_usec / 1000) % 2 ^ 64) ctx)

-- `setsockopt` of a time-out.
unfoldable pub setsockopt : Bool → ℕ → ℕ → ℕ → ℕ → Option FdCtx → Option FdCtx
unfolding set_timeout
setsockopt hook_enable level optname tv_sec tv_usec ctx =
    if hook_enable
      && (level == sol_socket)
      && ((optname == so_rcvtimeo) || (optname == so_sndtimeo))
    then timed_context optname tv_sec tv_usec ctx
    else ctx

-- The milliseconds of the timers of `sleep` and `usleep`.
abbrev pub sleep_ms : ℕ → ℕ
sleep_ms seconds = seconds * 1000 % 2 ^ 32

abbrev pub usleep_ms : ℕ → ℕ
usleep_ms usec = usec / 1000

-- Those of `nanosleep`, an int that becomes a `uint64_t`.
abbrev pub nanosleep_ms : ℕ → ℕ → ℕ
nanosleep_ms tv_sec tv_nsec =
    let ms = (tv_sec * 1000 + tv_nsec / 1000 / 1000) % 2 ^ 32 in
    if ltb ms (2 ^ 31) then ms else ms + (2 ^ 64 - 2 ^ 32)

is_nonblock-set_nonblock : (x : ℕ) → is_nonblock (set_nonblock x) ≡ true
is_nonblock-set_nonblock x = ground arith

is_nonblock-clear_nonblock : (x : ℕ) → is_nonblock (clear_nonblock x) ≡ false
is_nonblock-clear_nonblock x = ground arith

-- What the system got, given back under the flag the user set, is what the user passed.
flag_back :
    (system : Bool) (arg : ℕ)
    → (let flags = if system then set_nonblock arg else clear_nonblock arg in
        ((if is_nonblock arg then set_nonblock flags else clear_nonblock flags) ≡ arg)
        × (is_nonblock flags ≡ system))
flag_back true arg = (ground arith, is_nonblock-set_nonblock arg)
flag_back false arg = (ground arith, is_nonblock-clear_nonblock arg)

fcntl_get-masked :
    (ctx : FdCtx) (answer : ℤ)
    → is_heeded ctx ≡ true
    → fcntl_get (some ctx) answer ≡ masked_flags ctx.user_nonblock answer
unfolding fcntl_get
fcntl_get-masked ctx answer h = rw h refl

-- On a socket that is not closed, F_GETFL behind a call of F_SETFL gives the flags that
-- F_SETFL was called with, where the system answers with those that it got, and of these
-- O_NONBLOCK is the sysNonblock of the context.
pub fcntl_get-fcntl_set :
    (ctx : FdCtx) (arg : ℕ)
    → is_heeded ctx ≡ true
    → (let (after, flags) = fcntl_set (some ctx) arg in
        (fcntl_get after (pos flags) ≡ pos arg) × (is_nonblock flags ≡ ctx.sys_nonblock))
unfolding fcntl_set
fcntl_get-fcntl_set ctx arg h =
    let (back, flag) = flag_back ctx.sys_nonblock arg in
    let flags : ℕ = if ctx.sys_nonblock then set_nonblock arg else clear_nonblock arg in
    rw h (
      fcntl_get-masked (record ctx { user_nonblock = is_nonblock arg }) (pos flags) h ∙ ap pos back,
      flag,
    )
