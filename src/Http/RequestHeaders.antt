-- ===== src/Http/RequestHeaders.antt =====
-- The headers of the requests that myhttp/http/http_connection.cpp makes.
use http_practice.Prelude.{
  ◌≡◌, refl, ap, sym, ◌∙◌, Bool, true, false, not, ◌&&◌, ◌||◌, [], ◌∷◌, Option, none, some, arith,
  if◌then◌else◌, Bool-cases, inl, inr,
}
use http_practice.Prelude.Text.{
  Bytes, bytes, eq_nocase, less_nocase, folded, is_empty, eq_bytes, eq_bytes_eq, eq_bytes_refl,
}
use http_practice.Prelude.SortedMap.{find, find-assign}
use http_practice.Prelude.Keys.{by_nocase, same-eq_bytes}
use http_practice.Http.Codes.{HttpMethod}
use http_practice.Http.Message.{HttpRequest, set_header, get_header, value_or}
use http_practice.Http.Requests.{Given, add_headers, with_host, make_request, make_pool_request}

-- Some header asks to keep the connection.
abbrev pub keeps_alive : Given → Bool
keeps_alive [] = false
keeps_alive (e ∷ es) =
    (eq_nocase e.0 (bytes "connection") && eq_nocase e.1 (bytes "keep-alive")) || keeps_alive es

-- Some header names a host.
abbrev pub names_host : Given → Bool
names_host [] = false
names_host (e ∷ es) = (eq_nocase e.0 (bytes "host") && not (is_empty e.1)) || names_host es

add_headers-close :
    (es : Given) (has_host : Bool) (req : HttpRequest)
    → (add_headers es has_host req).0.close ≡ (req.close && not (keeps_alive es))
unfolding set_header
add_headers-close [] has_host req = ground arith
add_headers-close (e ∷ es) has_host req = elim (Bool-cases (eq_nocase e.0 (bytes "connection"))) [
  | inl x ↦ elim (Bool-cases (eq_nocase e.1 (bytes "keep-alive"))) [
    | inl y ↦
        rw (x, y) (add_headers-close es has_host (record req { close = false }) ∙ ground arith)
    | inr y ↦ rw (x, y) (add_headers-close es has_host req)
  ]
  | inr x ↦ rw x (add_headers-close es _ (set_header e.0 e.1 req))
]

connection_no_host :
    (k : Bytes) → eq_nocase k (bytes "connection") ≡ true → eq_nocase k (bytes "host") ≡ false
connection_no_host k h =
    ap (λ t. eq_bytes t (folded (bytes "host")))
      (eq_bytes_eq (folded k) (folded (bytes "connection")) h)

add_headers-host :
    (es : Given) (has_host : Bool) (req : HttpRequest)
    → (add_headers es has_host req).1 ≡ (has_host || names_host es)
add_headers-host [] has_host req = ground arith
add_headers-host (e ∷ es) has_host req = elim (Bool-cases (eq_nocase e.0 (bytes "connection"))) [
  | inl x ↦ rw (x, connection_no_host e.0 x) (add_headers-host es has_host _)
  | inr x ↦ rw x (
      add_headers-host es _ (set_header e.0 e.1 req)
      ∙ flags has_host (eq_nocase e.0 (bytes "host")) (is_empty e.1) (names_host es))
]
  where
    flags : (a b c d : Bool) → ((if not a && b then not c else a) || d) ≡ (a || ((b && not c) || d))
    flags a b c d = ground arith

swapped : (a b : Bytes) → eq_nocase a b ≡ false → eq_nocase b a ≡ false
swapped a b h = elim (Bool-cases (eq_nocase b a)) [
  | inr x ↦ x
  | inl x ↦
      let e = eq_bytes_eq (folded b) (folded a) x in
      absurd (ground (arith, h, ap (λ t. eq_bytes (folded a) t) e, eq_bytes_refl (folded a)))
]

-- A header of another name leaves a header out.
kept_out :
    (key name val : Bytes) (req : HttpRequest)
    → eq_nocase key name ≡ false
    → find less_nocase key req.headers ≡ none
    → find less_nocase key (set_header name val req).headers ≡ none
unfolding set_header
kept_out key name val req h k =
    find-assign by_nocase key name val req.headers
    ∙ ap (λ t. if t then some val else find less_nocase key req.headers)
        (same-eq_bytes (folded key) (folded name) ∙ h)
    ∙ k

-- The headers never hold the connection header.
add_headers-no_connection :
    (es : Given) (has_host : Bool) (req : HttpRequest)
    → find less_nocase (bytes "connection") req.headers ≡ none
    → find less_nocase (bytes "connection") (add_headers es has_host req).0.headers ≡ none
unfolding set_header
add_headers-no_connection [] has_host req h = h
add_headers-no_connection (e ∷ es) has_host req h =
    elim (Bool-cases (eq_nocase e.0 (bytes "connection"))) [
      | inl x ↦ elim (Bool-cases (eq_nocase e.1 (bytes "keep-alive"))) [
        | inl y ↦ rw (x, y) (add_headers-no_connection es has_host (record req { close = false }) h)
        | inr y ↦ rw (x, y) (add_headers-no_connection es has_host req h)
      ]
      | inr x ↦ rw x (
          add_headers-no_connection es _ (set_header e.0 e.1 req)
            (kept_out (bytes "connection") e.0 e.1 req (swapped e.0 (bytes "connection") x) h))
    ]

-- What a request of a pool or of a connection is.
pub record IsMade (headers : Given) (body host : Bytes) (r : HttpRequest) : Type 0 where
  pub close : r.close ≡ not (keeps_alive headers)
  pub connection : find less_nocase (bytes "connection") r.headers ≡ none
  pub body_kept : r.body ≡ body
  pub host_named : (names_host headers || eq_bytes (get_header (bytes "Host") [] r) host) ≡ true

-- The common part of both.
made :
    (host body : Bytes) (headers : Given) (req : HttpRequest)
    → req.close ≡ true
    → req.headers ≡ []
    → IsMade headers body host
        (record (with_host host (add_headers headers false req)) { body = body })
unfolding set_header get_header
made host body headers req c n =
    let r = add_headers headers false req in
    let flag : names_host headers ≡ r.1 = sym (add_headers-host headers false req) in
    let closes : r.0.close ≡ not (keeps_alive headers) =
      add_headers-close headers false req ∙ ap (λ t. t && not (keeps_alive headers)) c in
    let out =
      add_headers-no_connection headers false req (ap (find less_nocase (bytes "connection")) n) in
    elim (Bool-cases r.1) [
      | inl x ↦ rw x (record {
        close = closes;
        connection = out;
        body_kept = refl;
        host_named = rw (flag ∙ x) refl;
      })
      | inr x ↦ rw x (record {
        close = closes;
        connection = kept_out (bytes "connection") (bytes "Host") host r.0 refl out;
        body_kept = refl;
        host_named = ground (
          arith,
          ap (λ (o : Option Bytes). eq_bytes (value_or o []) host)
                (find-assign by_nocase (bytes "Host") (bytes "Host") host r.0.headers)
              ∙ eq_bytes_refl host,
        );
      })
    ]

pub make_request-IsMade :
    (method : HttpMethod) (path query fragment host : Bytes) (headers : Given) (body : Bytes)
    → IsMade headers body host (make_request method path query fragment host headers body)
unfolding make_request
make_request-IsMade method path query fragment host headers body =
    made host body headers _ refl refl

-- A request of the pool has the body given, asks to close exactly if no header connection has
-- the value keep-alive in any case, holds no connection header, and names the virtual host of
-- the pool, or its host if that is empty, if no header names a host.
pub make_pool_request-IsMade :
    (method : HttpMethod) (url host vhost : Bytes) (headers : Given) (body : Bytes)
    → IsMade headers body
        (if is_empty vhost then host else vhost)
        (make_pool_request method url host vhost headers body)
unfolding make_pool_request
make_pool_request-IsMade method url host vhost headers body =
    made (if is_empty vhost then host else vhost) body headers _ refl refl
