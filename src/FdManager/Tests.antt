-- ===== src/FdManager/Tests.antt =====
-- The theorems about myhttp/fd_manager.cpp at concrete tables, and runs of the code.
use http_practice.Prelude.{◌≡◌, refl, true, false, [], ◌∷◌, none, some, arith}
use http_practice.Prelude.Int.{pos, negsuc}
use http_practice.Prelude.Results.{ok, err, out_of_bounds}
use http_practice.FdManager.Contexts.{
  Descriptor, new_fd_manager, get, init, set_timeout, get_timeout, new_fd_ctx,
}
use http_practice.FdManager.Lookup.{dels, get-beyond}

abbrev a_socket : Descriptor
a_socket = record { stat = some true; nonblock = false }

-- A blocking socket is set to O_NONBLOCK.
made_nonblocking : (new_fd_ctx a_socket (pos 7)).1 ≡ true
unfolding init
made_nonblocking = refl

timeouts_apart :
    get_timeout false (set_timeout true 50 (new_fd_ctx a_socket (pos 7)).0) ≡ 18446744073709551615
unfolding get_timeout set_timeout init
timeouts_apart = refl

no_descriptor : get a_socket (negsuc 0) true new_fd_manager ≡ ok (none, new_fd_manager)
unfolding get
no_descriptor = refl

get-beyond_example :
    (get a_socket (pos 64) true new_fd_manager ≡ err out_of_bounds)
    × (get a_socket (pos 64) false new_fd_manager ≡ ok (none, new_fd_manager))
get-beyond_example = get-beyond (dels (pos 3) ∷ []) new_fd_manager a_socket 64 refl (omega arith)
