-- ===== src/Http/Requests.antt =====
-- `DoRequest` of HttpConnection and `doRequest` of HttpConnectionPool in
-- myhttp/http/http_connection.cpp: the request that the headers make, and the code of the result.
use http_practice.Prelude.{
  ℕ, zero, suc, Bool, true, false, not, ◌&&◌, List, [], ◌∷◌, ◌++◌, Option, none, some,
  if◌then◌else◌,
}
use http_practice.Prelude.Int.{ℤ, pos, negsuc}
use http_practice.Prelude.Text.{Bytes, bytes, eq_nocase, is_empty}
use http_practice.Http.Codes.{HttpMethod}
use http_practice.Http.Message.{HttpRequest, new_http_request, set_header, marked}

-- `std::map<std::string, std::string>`, in its order.
abbrev pub Given : Type 0
Given = List (Bytes × Bytes)

-- The loop over the headers: the request, and `has_host`.
abbrev pub add_headers : Given → Bool → HttpRequest → HttpRequest × Bool
add_headers [] has_host req = (req, has_host)
add_headers (e ∷ es) has_host req =
    if eq_nocase e.0 (bytes "connection")
    then add_headers es has_host
        (if eq_nocase e.1 (bytes "keep-alive") then record req { close = false } else req)
    else add_headers es
        (if not has_host && eq_nocase e.0 (bytes "host") then not (is_empty e.1) else has_host)
        (set_header e.0 e.1 req)

abbrev pub with_host : Bytes → HttpRequest × Bool → HttpRequest
with_host host r = if r.1 then r.0 else set_header (bytes "Host") host r.0

-- What `DoRequest` makes of a method, a URI's parts, the headers and a body.
unfoldable pub make_request :
    HttpMethod → Bytes → Bytes → Bytes → Bytes → Given → Bytes → HttpRequest
make_request method path query fragment host headers body =
    record (with_host host (
      add_headers headers false (record (new_http_request 17 true) {
        path = path;
        query = query;
        fragment = fragment;
        method = method;
      }))) { body = body }

-- `uri->getPath()` with the query and the fragment.
abbrev pub uri_text : Bytes → Bytes → Bytes → Bytes
uri_text path query fragment = path ++ marked (bytes "?") query ++ marked (bytes "#") fragment

-- The pool's: the whole text is the path, and its virtual host goes before its host.
unfoldable pub make_pool_request : HttpMethod → Bytes → Bytes → Bytes → Given → Bytes → HttpRequest
make_pool_request method url host vhost headers body =
    record (with_host (if is_empty vhost then host else vhost) (
      add_headers headers false
        (record (new_http_request 17 true) { path = url; method = method; close = true }))) {
          body = body;
        }

-- `HttpResult`, without its text: the code, and the response.
pub record HttpResult {ℓ} (R : Type ℓ) : Type ℓ where
  pub result : ℕ
  pub response : Option R

module _ {ℓ} {R : Type ℓ} where
  abbrev pub failed : ℕ → HttpResult R
  failed code = record { result = code; response = none }

  abbrev pub received : Option R → HttpResult R
  received none = failed 6
  received (some rsp) = record { result = 0; response = some rsp }

  -- What `sendRequest` returned, and the response that then comes.
  abbrev pub after_send : ℤ → Option R → HttpResult R
  after_send (pos n) rsp = elim n [ zero ↦ failed 4 | suc k ↦ received rsp ]
  after_send (negsuc n) rsp = failed 5

  -- `DoRequest`: whether there is an address and a socket, and it connects.
  unfoldable pub request_result : Bool → Bool → Bool → ℤ → Option R → HttpResult R
  request_result has_address has_socket connects rt rsp =
      if not has_address
      then failed 2
      else if not has_socket
      then failed 7
      else if not connects
      then failed 3
      else after_send rt rsp

  -- `doRequest` of the pool: whether it gives a connection, and that has a socket.
  unfoldable pub pool_request_result : Bool → Bool → ℤ → Option R → HttpResult R
  pool_request_result has_connection has_socket rt rsp =
      if not has_connection
      then failed 8
      else if not has_socket
      then failed 9
      else after_send rt rsp
