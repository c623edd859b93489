-- ===== src/Hook/Tests.antt =====
-- Runs of the hooked calls at concrete inputs.
use http_practice.Prelude.{ℕ, zero, suc, ◌<◌, ◌≡◌, refl, true, false, [], ◌∷◌, some, arith}
use http_practice.Prelude.Int.{pos, negsuc}
use http_practice.FdManager.Contexts.{FdCtx, no_timeout, get_timeout}
use http_practice.Hook.Io.{
  Answer, eintr, eagain, etimedout, einprogress, minus_one, Io, armed, registered, yielded,
  disarmed, do_io, connect_with_timeout, retry,
}
use http_practice.Hook.Io.Blocking.{retried, answer_of, Ended, do_io-blocks, do_io-Ended}
use http_practice.Hook.Flags.{
  is_nonblock, fcntl_set, fcntl_get, ioctl_nonblock, setsockopt, so_rcvtimeo, sol_socket, sleep_ms,
  nanosleep_ms, fcntl_get-fcntl_set,
}

abbrev a_socket : FdCtx
a_socket = record {
  is_init = true;
  is_socket = true;
  sys_nonblock = true;
  user_nonblock = false;
  is_closed = false;
  fd = pos 7;
  recv_timeout = 500;
  send_timeout = no_timeout;
}

-- Interrupted, then nothing to read, then 12 bytes.
abbrev calls_of : ℕ → Answer
calls_of zero = (minus_one, eintr)
calls_of (suc zero) = (minus_one, eagain)
calls_of (suc (suc n)) = (pos 12, eagain)

abbrev calm : Io
calm = record { call = calls_of; registers = λ w. (pos 0, 0); fired = λ w. false }

abbrev late : Io
late = record { call = calls_of; registers = λ w. (pos 0, 0); fired = λ w. true }

do_io_test :
    do_io 3 calm true (some a_socket) true
    ≡ some (record {
      answer = (pos 12, eagain);
      calls = 3;
      actions = armed 500 ∷ registered ∷ yielded ∷ disarmed ∷ [];
    })
unfolding do_io retry get_timeout
do_io_test = refl

calls_retried : (i : ℕ) → i < 2 → retried calm i ≡ true
calls_retried zero l = refl
calls_retried (suc zero) l = refl
calls_retried (suc (suc i)) l = absurd (omega (arith, l))

do_io-blocks_example :
    answer_of (do_io 3 calm true (some a_socket) true) ≡ some ((pos 12, eagain), 3)
do_io-blocks_example =
    do_io-blocks 3 2 calm a_socket true refl (λ i. refl) (λ i. refl) calls_retried refl
      (omega arith)

do_io-Ended_example :
    Ended late (get_timeout true a_socket) (do_io 3 late true (some a_socket) true)
do_io-Ended_example = do_io-Ended 3 2 late a_socket true refl refl (omega arith)

do_io-late_test :
    answer_of (do_io 3 late true (some a_socket) true) ≡ some ((minus_one, etimedout), 2)
unfolding do_io retry get_timeout
do_io-late_test = refl

abbrev unconnected : Io
unconnected = record {
  call = λ k. (minus_one, einprogress);
  registers = λ w. (minus_one, 1);
  fired = λ w. false;
}

-- `addEvent` fails, SO_ERROR has no error yet, and the call succeeds.
connect_unregistered_test :
    answer_of (connect_with_timeout unconnected true (some a_socket) no_timeout (pos 0, 1) 0)
    ≡ some ((pos 0, 1), 1)
unfolding connect_with_timeout
connect_unregistered_test = refl

fcntl_get-fcntl_set_example :
    (let (after, flags) = fcntl_set (some a_socket) 2 in
      (fcntl_get after (pos flags) ≡ pos 2) × (is_nonblock flags ≡ true))
fcntl_get-fcntl_set_example = fcntl_get-fcntl_set a_socket 2 refl

-- The -1 of a call that fails becomes another number.
fcntl_get_failed_test : fcntl_get (some a_socket) (negsuc 0) ≡ negsuc 2048
unfolding fcntl_get
fcntl_get_failed_test = refl

ioctl_nonblock_test : ioctl_nonblock (some a_socket) 0 ≡ (some a_socket, false)
unfolding ioctl_nonblock
ioctl_nonblock_test = refl

setsockopt_test :
    setsockopt true sol_socket so_rcvtimeo 0 0 (some a_socket)
    ≡ some (record a_socket { recv_timeout = 0 })
unfolding setsockopt
setsockopt_test = refl

sleep_ms_test : sleep_ms 4294968 ≡ 704
sleep_ms_test = refl

nanosleep_ms_test : nanosleep_ms 2 500000000 ≡ 2500
nanosleep_ms_test = refl
