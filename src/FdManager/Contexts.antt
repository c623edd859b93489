-- ===== src/FdManager/Contexts.antt =====
-- `FdCtx` and `FdManager` of myhttp/fd_manager.cpp. What `fstat` and `fcntl` say of a descriptor is
-- an argument.
use http_practice.Prelude.{
  ℕ, zero, suc, ◌-◌, ◌^◌, Bool, true, false, ◌&&◌, not, List, Option, none, some, get_elem?, set,
  replicate, if◌then◌else◌,
}
use http_practice.Prelude.Int.{ℤ, pos, negsuc}
use http_practice.Prelude.Results.{Result, ok, err, out_of_bounds}

-- `stat` is none where `fstat` fails, and else whether the descriptor is a socket; `nonblock` is
-- the flag O_NONBLOCK of `fcntl(F_GETFL)`.
pub record Descriptor : Type 0 where
  pub stat : Option Bool
  pub nonblock : Bool

pub record FdCtx : Type 0 where
  pub is_init : Bool
  pub is_socket : Bool
  pub sys_nonblock : Bool
  pub user_nonblock : Bool
  pub is_closed : Bool
  pub fd : ℤ
  pub recv_timeout : ℕ
  pub send_timeout : ℕ

-- -1 as a `uint64_t`.
abbrev pub no_timeout : ℕ
no_timeout = 2 ^ 64 - 1

abbrev pub is_sock : Option Bool → Bool
is_sock none = false
is_sock (some b) = b

abbrev pub is_known : Option Bool → Bool
is_known none = false
is_known (some b) = true

-- `init`: the context, and whether O_NONBLOCK was set with `fcntl(F_SETFL)`.
unfoldable pub init : Descriptor → FdCtx → FdCtx × Bool
init d c = if c.is_init then (c, false) else (
  record c {
    is_init = is_known d.stat;
    is_socket = is_sock d.stat;
    sys_nonblock = is_sock d.stat;
    user_nonblock = false;
    is_closed = false;
    recv_timeout = no_timeout;
    send_timeout = no_timeout;
  },
  is_sock d.stat && not d.nonblock,
)

-- The constructor calls `init`.
abbrev pub new_fd_ctx : Descriptor → ℤ → FdCtx × Bool
new_fd_ctx d fd = init d record {
  is_init = false;
  is_socket = false;
  sys_nonblock = false;
  user_nonblock = false;
  is_closed = false;
  fd = fd;
  recv_timeout = no_timeout;
  send_timeout = no_timeout;
}

-- SO_RCVTIMEO is one type, and any other is taken for SO_SNDTIMEO.
unfoldable pub set_timeout : Bool → ℕ → FdCtx → FdCtx
set_timeout is_recv v c =
    if is_recv then record c { recv_timeout = v } else record c { send_timeout = v }

unfoldable pub get_timeout : Bool → FdCtx → ℕ
get_timeout is_recv c = if is_recv then c.recv_timeout else c.send_timeout

-- `m_datas`; null is none.
abbrev pub FdManager : Type 0
FdManager = List (Option FdCtx)

abbrev pub new_fd_manager : FdManager
new_fd_manager = replicate 64 none

-- `get` of a descriptor that is not negative, by what the table has of it: none is beyond the
-- table, which does not grow, so that the assignment of a new context there is undefined.
abbrev pub looked :
    Descriptor → ℕ → Bool → Option (Option FdCtx) → FdManager → Result (Option FdCtx × FdManager)
looked d fd true none m = err out_of_bounds
looked d fd false none m = ok (none, m)
looked d fd auto_create (some (some ctx)) m = ok (some ctx, m)
looked d fd false (some none) m = ok (none, m)
looked d fd true (some none) m =
    let ctx = (new_fd_ctx d (pos fd)).0 in ok (some ctx, set m fd (some ctx))

unfoldable pub get : Descriptor → ℤ → Bool → FdManager → Result (Option FdCtx × FdManager)
get d (pos fd) auto_create m = looked d fd auto_create (get_elem? m fd) m
get d (negsuc zero) auto_create m = ok (none, m)
get d (negsuc (suc n)) auto_create m = err out_of_bounds

-- `del` changes nothing.
abbrev pub del : ℤ → FdManager → FdManager
del fd m = m
