-- ===== src/Http/PoolTests.antt =====
-- The pool and the requests of myhttp/http/http_connection.cpp on concrete inputs.
use http_practice.Prelude.{
  ℕ, ◌≡◌, refl, true, false, List, [], ◌∷◌, ◌++◌, some, arith, length, suc, take,
}
use http_practice.Prelude.Int.{pos}
use http_practice.Prelude.Text.{Bytes, bytes}
use http_practice.Prelude.Results.{ok}
use http_practice.Http.Codes.{http_status_to_string}
use http_practice.Http.Message.{HttpResponse, new_http_response, dump_response}
use http_practice.Http.Lines.{read_head}
use http_practice.Http.Dump.{response_lines, IsClean}
use http_practice.Http.Pool.{
  HttpConnectionPool, new_pool, new_http_connection, connected_to, get_connection,
}
use http_practice.Http.Pooling.{IsChosen, get_connection-IsChosen}
use http_practice.Http.PoolCalls.{
  Call, gets, releases, pool_calls, IsAccounted, pool_calls-IsAccounted,
}
use http_practice.Http.Requests.{Given, pool_request_result, failed}
use http_practice.Http.Sending.{send_response, send_response-read_head}
use http_practice.Streams.Writing.{Sink}

abbrev some_calls : List Call
some_calls =
    gets (λ n. true) 5000 (connected_to 7)
    ∷ gets (λ n. true) 5000 (connected_to 8)
    ∷ releases (λ n. true) 6000 1
    ∷ []

pool_calls-IsAccounted_example : IsAccounted (pool_calls some_calls (new_pool 1 1000 2, []))
pool_calls-IsAccounted_example =
    pool_calls-IsAccounted some_calls (new_pool 1 1000 2, []) (refl, tt)

abbrev a_pool : HttpConnectionPool
a_pool = record (new_pool 4 1000 2) {
  conns = new_http_connection 9 ∷ new_http_connection 7 ∷ [];
  total = 2;
}

get_connection-IsChosen_example :
    IsChosen
      (λ n. true)
      500
      (connected_to 3)
      a_pool
      (get_connection (λ n. true) 500 (connected_to 3) a_pool)
get_connection-IsChosen_example = get_connection-IsChosen (λ n. true) 500 (connected_to 3) a_pool

-- A connection that is young enough is deleted, and one that is too old is kept.
young_deleted : (get_connection (λ n. true) 500 (connected_to 3) a_pool).1.conns ≡ []
unfolding get_connection
young_deleted = refl

old_kept :
    (get_connection (λ n. true) 5000 (connected_to 3) a_pool).0 ≡ some (new_http_connection 9)
unfolding get_connection
old_kept = refl

abbrev some_headers : Given
some_headers = (bytes "Accept", bytes "all") ∷ (bytes "Connection", bytes "Keep-Alive") ∷ []

no_connection : pool_request_result {R = ℕ} false true (pos 3) (some 1) ≡ failed 8
unfolding pool_request_result
no_connection = refl

-- A peer that takes one byte at a time.
abbrev takes_one : Sink Bytes
takes_one = record {
  write_some = λ bs s. (some 1, s ++ take 1 bs);
  sent = λ s. s;
  accepts = λ bs s h. record {
    size = 1;
    said = refl;
    some_bytes = omega arith;
    fits = omega (arith, h);
    sends = refl;
  };
}

-- Its connection header is not sent, its other headers and its body are.
abbrev a_response : HttpResponse
a_response = record (new_http_response 17 true) {
  body = bytes "hello";
  headers =
      (bytes "Connection", bytes "keep-alive")
      ∷ (bytes "Content-Type", bytes "text/plain")
      ∷ (bytes "Server", bytes "myhttp")
      ∷ [];
}

a_response-IsClean : IsClean a_response.headers
a_response-IsClean = (((refl, refl), refl), (((refl, refl), refl), (((refl, refl), refl), tt)))

send_response-read_head_example :
    (t : Bytes) × (send_response takes_one.write_some 200 a_response []
      ≡ some (ok (pos (length (dump_response a_response)), (dump_response a_response, t))))
    × (t ≡ [] ++ dump_response a_response)
    × (read_head (suc (length (response_lines a_response))) (dump_response a_response)
        ≡ some (response_lines a_response, bytes "hello"))
unfolding dump_response http_status_to_string
send_response-read_head_example =
    send_response-read_head takes_one 200 a_response [] refl a_response-IsClean (omega arith)
      (omega arith)

a_response_lines :
    response_lines a_response
    ≡ bytes "HTTP/1.1 200 OK"
      ∷ bytes "Content-Type: text/plain"
      ∷ bytes "Server: myhttp"
      ∷ bytes "connection: close"
      ∷ bytes "content-length: 5"
      ∷ []
unfolding http_status_to_string
a_response_lines = refl
