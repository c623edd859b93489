-- ===== src/Http/Tests.antt =====
-- The messages of myhttp/http on concrete inputs.
use http_practice.Prelude.{
  ◌≡◌, ◌≢◌, List, suc, refl, ap, true, false, [], ◌∷◌, some, none, length, arith,
}
use http_practice.Prelude.Text.{Bytes, bytes}
use http_practice.Prelude.Results.{ok, Returns}
use http_practice.Http.Codes.{
  HttpMethod, method_number, http_method_to_string, http_status_to_string, chars_to_http_method,
}
use http_practice.Http.Message.{
  HttpRequest, HttpResponse, new_http_request, new_http_response, value_or, has_key, get_header,
  has_header, set_header, dump_request, del_header,
}
use http_practice.Http.Headers.{Edit, sets, dels, edits, value_after, edits-get_header}
use http_practice.Http.Lines.{read_head}
use http_practice.Http.Dump.{request_lines, dump_request-read_head}

not_found_text : http_status_to_string 404 ≡ bytes "Not Found"
unfolding http_status_to_string
not_found_text = refl

unknown_text : http_status_to_string 299 ≡ bytes "<unknown>"
unfolding http_status_to_string
unknown_text = refl

-- A longer word is taken for the method that it starts with.
prefix_taken : chars_to_http_method (bytes "GETX") ≡ HttpMethod.get
unfolding chars_to_http_method
prefix_taken = refl

patch_named : HttpMethod.patch ≢ HttpMethod.invalid_method
patch_named e = absurd (omega (arith, ap method_number e))

abbrev an_edit : Edit
an_edit = sets (bytes "Content-Type") (bytes "text/html")

abbrev some_edits : List Edit
some_edits =
    an_edit
    ∷ sets (bytes "Host") (bytes "a")
    ∷ sets (bytes "CONTENT-TYPE") (bytes "text/plain")
    ∷ dels (bytes "host")
    ∷ []

edits-get_header_example :
    (get_header (bytes "content-type") [] (edits some_edits (new_http_request 17 true))
      ≡ value_or (value_after some_edits (bytes "content-type") none) [])
    × (has_header (bytes "content-type") (some []) (edits some_edits (new_http_request 17 true))
        ≡ has_key (value_after some_edits (bytes "content-type") none) (some []))
edits-get_header_example =
    edits-get_header some_edits (bytes "content-type") [] (new_http_request 17 true) tt

last_edit_wins :
    get_header (bytes "content-type") [] (edits some_edits (new_http_request 17 true))
    ≡ bytes "text/plain"
unfolding get_header set_header del_header
last_edit_wins = refl

abbrev a_request : HttpRequest
a_request = record (new_http_request 17 false) {
  method = HttpMethod.patch;
  query = bytes "q=1";
  body = bytes "hello";
  headers = (bytes "Accept", bytes "all") ∷ (bytes "Host", bytes "a") ∷ [];
}

dump_request-read_head_example : Returns (dump_request a_request) (λ s.
    (name : Bytes) × (http_method_to_string HttpMethod.patch ≡ ok name)
    × (read_head (suc (length (request_lines name a_request))) s
        ≡ some (request_lines name a_request, bytes "hello")))
dump_request-read_head_example = dump_request-read_head a_request patch_named (record {
  path = refl;
  query = refl;
  fragment = refl;
  headers = (((refl, refl), refl), (((refl, refl), refl), tt));
})

abbrev a_response : HttpResponse
a_response = record (new_http_response 16 true) {
  status = 404;
  body = bytes "gone";
  headers = (bytes "Server", bytes "s") ∷ [];
}
