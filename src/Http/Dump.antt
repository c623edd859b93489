-- ===== src/Http/Dump.antt =====
-- What `dump` of myhttp/http/http.cpp writes, read back by lines.
use mathlib.Core.List.{append_assoc}
use http_practice.Prelude.{
  ℕ, suc, ◌≡◌, ◌≢◌, refl, ap, ◌∙◌, Bool, true, false, List, [], ◌∷◌, ◌++◌, some, arith,
  if◌then◌else◌, length, inl, inr, Bool-cases,
}
use http_practice.Prelude.Text.{
  Bytes, bytes, decimal, eq_nocase, is_line, IsHeadLine, is_line-append, decimal-is_line,
}
use http_practice.Prelude.Splice.{All}
use http_practice.Prelude.Results.{ok, Returns}
use http_practice.Http.Codes.{HttpMethod, http_method_to_string}
use http_practice.Http.Methods.{named}
use http_practice.Http.Message.{
  MapType, HttpRequest, HttpResponse, crlf, marked, version_text, connection_line, header_lines,
  body_part, dump_request, dump_response, reason_text,
}
use http_practice.Http.Lines.{read_head, message, read_head-message}

-- The header fields, each one a line, without the connection header.
abbrev pub field_lines : Bytes → MapType → List Bytes
field_lines sep [] = []
field_lines sep (e ∷ m) =
    let rest = field_lines sep m in
    if eq_nocase e.0 (bytes "connection") then rest else (e.0 ++ sep ++ e.1) ∷ rest

abbrev pub length_lines : Bytes → List Bytes
length_lines [] = []
length_lines (x ∷ xs) = (bytes "content-length: " ++ decimal (length (x ∷ xs))) ∷ []

abbrev pub connection_field : Bool → Bytes
connection_field close =
    bytes "connection: " ++ (if close then bytes "close" else bytes "keep-alive")

-- The start lines.
abbrev pub request_line : Bytes → HttpRequest → Bytes
request_line name r =
    name
    ++ bytes " "
    ++ r.path
    ++ marked (bytes "?") r.query
    ++ marked (bytes "#") r.fragment
    ++ bytes " "
    ++ version_text r.version

abbrev pub status_line : HttpResponse → Bytes
status_line r =
    version_text r.version ++ bytes " " ++ decimal r.status ++ bytes " " ++ reason_text r

abbrev pub request_lines : Bytes → HttpRequest → List Bytes
request_lines name r =
    request_line name r
    ∷ connection_field r.close
    ∷ (field_lines (bytes ":") r.headers ++ length_lines r.body)

abbrev pub response_lines : HttpResponse → List Bytes
response_lines r =
    status_line r
    ∷ (field_lines (bytes ": ") r.headers ++ (connection_field r.close ∷ length_lines r.body))

header_lines-message :
    (sep : Bytes) (m : MapType) (ls : List Bytes) (body : Bytes)
    → header_lines sep m ++ message ls body ≡ message (field_lines sep m ++ ls) body
header_lines-message sep [] ls body = refl
header_lines-message sep (e ∷ m) ls body = elim (Bool-cases (eq_nocase e.0 (bytes "connection"))) [
  | inl x ↦ rw x (header_lines-message sep m ls body)
  | inr x ↦ rw x (simp (append_assoc, ← header_lines-message sep m ls body))
]

body_part-message : (body : Bytes) → body_part body ≡ message (length_lines body) body
body_part-message [] = refl
body_part-message (x ∷ xs) = simp append_assoc

-- The fields of the map can be written on lines: none has a CR, and no key is empty.
abbrev pub IsClean : MapType → Type 0
IsClean m = All (λ (e : Bytes × Bytes). IsHeadLine e.0 × (is_line e.1 ≡ true)) m

head_append : (a b : Bytes) → IsHeadLine a → is_line b ≡ true → IsHeadLine (a ++ b)
head_append [] b (h, k) l = absurd (ground (arith, k))
head_append (x ∷ a) b (h, k) l = (rw (is_line-append (x ∷ a) b, h, l) refl, refl)

field_lines-IsHeadLine :
    (sep : Bytes) (m : MapType) (ls : List Bytes)
    → is_line sep ≡ true
    → IsClean m
    → All IsHeadLine ls
    → All IsHeadLine (field_lines sep m ++ ls)
field_lines-IsHeadLine sep [] ls s h k = k
field_lines-IsHeadLine sep (e ∷ m) ls s ((h, v), hs) k =
    elim (Bool-cases (eq_nocase e.0 (bytes "connection"))) [
      | inl x ↦ rw x (field_lines-IsHeadLine sep m ls s hs k)
      | inr x ↦ rw x (
          (
            head_append (e.0 ++ sep) e.1 (head_append e.0 sep h s) v,
            field_lines-IsHeadLine sep m ls s hs k,
          ))
    ]

length_lines-IsHeadLine : (body : Bytes) → All IsHeadLine (length_lines body)
length_lines-IsHeadLine [] = tt
length_lines-IsHeadLine (x ∷ xs) = (
  head_append (bytes "content-length: ") (decimal (length (x ∷ xs))) (refl, refl)
      (decimal-is_line (length (x ∷ xs))),
  tt,
)

connection_field-IsHeadLine : (close : Bool) → IsHeadLine (connection_field close)
connection_field-IsHeadLine true = (refl, refl)
connection_field-IsHeadLine false = (refl, refl)

version_text-is_line : (version : ℕ) → is_line (version_text version) ≡ true
version_text-is_line version = simp (is_line-append, decimal-is_line)

marked-is_line :
    (mark part : Bytes)
    → is_line mark ≡ true
    → is_line part ≡ true
    → is_line (marked mark part) ≡ true
unfolding marked
marked-is_line mark [] h k = refl
marked-is_line mark (x ∷ part) h k = simp (is_line-append, h, k)

-- No part of the request line has a CR.
pub record IsWritable (r : HttpRequest) : Type 0 where
  pub path : is_line r.path ≡ true
  pub query : is_line r.query ≡ true
  pub fragment : is_line r.fragment ≡ true
  pub headers : IsClean r.headers

request_line-IsHeadLine :
    (name : Bytes) (r : HttpRequest)
    → IsHeadLine name
    → IsWritable r
    → IsHeadLine (request_line name r)
request_line-IsHeadLine [] r (h, k) w = absurd (ground (arith, k))
request_line-IsHeadLine (x ∷ name) r (h, k) w = (
  simp (
    is_line-append,
    h,
    w.path,
    marked-is_line (bytes "?") r.query refl w.query,
    marked-is_line (bytes "#") r.fragment refl w.fragment,
    version_text-is_line,
  ),
  refl,
)

nested : (a b c d e : Bytes) → a ++ b ++ c ++ d ++ e ≡ a ++ (b ++ (c ++ (d ++ e)))
nested a b c d e = simp append_assoc

fields_and_body :
    (sep : Bytes) (m : MapType) (body : Bytes)
    → header_lines sep m ++ body_part body ≡ message (field_lines sep m ++ length_lines body) body
fields_and_body sep m body =
    ap (λ t. header_lines sep m ++ t) (body_part-message body)
    ∙ header_lines-message sep m (length_lines body) body

dumped_request :
    (name : Bytes) (r : HttpRequest)
    → request_line name r
        ++ crlf
        ++ connection_line r.close
        ++ header_lines (bytes ":") r.headers
        ++ body_part r.body
      ≡ message (request_lines name r) r.body
dumped_request name r =
    nested (request_line name r) crlf (connection_field r.close ++ crlf)
      (header_lines (bytes ":") r.headers) (body_part r.body)
    ∙ ap (λ t. request_line name r ++ (crlf ++ t))
        (append_assoc (connection_field r.close) crlf
            (header_lines (bytes ":") r.headers ++ body_part r.body)
          ∙ ap (λ t. connection_field r.close ++ (crlf ++ t))
              (fields_and_body (bytes ":") r.headers r.body))

-- A request whose method is none but the invalid one, and whose path, query, fragment and
-- headers have no CR and no header an empty name, is dumped normally, and a peer that reads
-- lines up to the empty one gets back the request line, the connection line, the headers but
-- the connection header, the content-length line if there is a body, and behind them exactly
-- the body.
pub dump_request-read_head :
    (r : HttpRequest)
    → r.method ≢ HttpMethod.invalid_method
    → IsWritable r
    → Returns (dump_request r) (λ s.
      (name : Bytes) × (http_method_to_string r.method ≡ ok name)
      × (read_head (suc (length (request_lines name r))) s ≡ some (request_lines name r, r.body)))
unfolding dump_request
dump_request-read_head r h w =
    let (name, e, both) = named r.method h in
    (
      message (request_lines name r) r.body,
      rw e (ap ok (dumped_request name r)),
      ((
        name,
        e,
        read_head-message (request_lines name r) r.body (
            (
              request_line-IsHeadLine name r both.0 w,
              (
                connection_field-IsHeadLine r.close,
                field_lines-IsHeadLine (bytes ":") r.headers (length_lines r.body) refl w.headers
                    (length_lines-IsHeadLine r.body),
              ),
            )),
      )),
    )

dumped_response : (r : HttpResponse) → dump_response r ≡ message (response_lines r) r.body
unfolding dump_response
dumped_response r =
    nested (status_line r) crlf (header_lines (bytes ": ") r.headers)
      (connection_field r.close ++ crlf) (body_part r.body)
    ∙ ap (λ t. status_line r ++ (crlf ++ (header_lines (bytes ": ") r.headers ++ t)))
        (append_assoc (connection_field r.close) crlf (body_part r.body)
          ∙ ap (λ t. connection_field r.close ++ (crlf ++ t)) (body_part-message r.body))
    ∙ ap (λ t. status_line r ++ (crlf ++ t))
        (header_lines-message (bytes ": ") r.headers
          (connection_field r.close ∷ length_lines r.body) r.body)

-- A response whose reason and headers have no CR and no header an empty name is dumped so that
-- a peer that reads lines up to the empty one gets back the status line, the headers but the
-- connection header, the connection line, the content-length line if there is a body, and
-- behind them exactly the body.
pub dump_response-read_head :
    (r : HttpResponse)
    → is_line (reason_text r) ≡ true
    → IsClean r.headers
    → read_head (suc (length (response_lines r))) (dump_response r)
      ≡ some (response_lines r, r.body)
dump_response-read_head r h w =
    ap (read_head (suc (length (response_lines r)))) (dumped_response r)
    ∙ read_head-message (response_lines r) r.body (
        (
          (simp (is_line-append, h, version_text-is_line, decimal-is_line), refl),
          field_lines-IsHeadLine (bytes ": ") r.headers
              (connection_field r.close ∷ length_lines r.body) refl w
              (connection_field-IsHeadLine r.close, length_lines-IsHeadLine r.body),
        ))
