-- ===== src/Http/Message.antt =====
-- `HttpRequest` and `HttpResponse` of myhttp/http/http.h and myhttp/http/http.cpp.
use http_practice.Prelude.{
  ℕ, ◌/◌, ◌%◌, Bool, true, false, [], ◌∷◌, ◌++◌, Option, none, some, if◌then◌else◌, length,
}
use http_practice.Prelude.Text.{Bytes, bytes, decimal, eq_nocase, less_nocase, is_empty}
use http_practice.Prelude.SortedMap.{SortedMap, find, assign, erase}
use http_practice.Prelude.Results.{Result, ok, ◌>>=◌}
use http_practice.Http.Codes.{HttpMethod, http_method_to_string, http_status_to_string}

-- `std::map<std::string, std::string, CaseInsensitiLess>`.
abbrev pub MapType : Type 0
MapType = SortedMap Bytes Bytes

pub record HttpRequest : Type 0 where
  pub method : HttpMethod
  pub version : ℕ
  pub close : Bool
  pub path : Bytes
  pub query : Bytes
  pub fragment : Bytes
  pub body : Bytes
  pub headers : MapType
  pub params : MapType
  pub cookies : MapType

abbrev pub new_http_request : ℕ → Bool → HttpRequest
new_http_request version close = record {
  method = HttpMethod.get;
  version = version;
  close = close;
  path = bytes "/";
  query = [];
  fragment = [];
  body = [];
  headers = [];
  params = [];
  cookies = [];
}

pub record HttpResponse : Type 0 where
  pub status : ℕ
  pub version : ℕ
  pub close : Bool
  pub body : Bytes
  pub reason : Bytes
  pub headers : MapType

abbrev pub new_http_response : ℕ → Bool → HttpResponse
new_http_response version close = record {
  status = 200;
  version = version;
  close = close;
  body = [];
  reason = [];
  headers = [];
}

-- `it == end() ? def : it->second`.
abbrev pub value_or : Option Bytes → Bytes → Bytes
value_or none default_value = default_value
value_or (some v) default_value = v

unfoldable pub get_header : Bytes → Bytes → HttpRequest → Bytes
get_header key default_value r = value_or (find less_nocase key r.headers) default_value

unfoldable pub get_param : Bytes → Bytes → HttpRequest → Bytes
get_param key default_value r = value_or (find less_nocase key r.params) default_value

unfoldable pub get_cookie : Bytes → Bytes → HttpRequest → Bytes
get_cookie key default_value r = value_or (find less_nocase key r.cookies) default_value

unfoldable pub set_header : Bytes → Bytes → HttpRequest → HttpRequest
set_header key val r = record r { headers = assign less_nocase key val r.headers }

unfoldable pub set_param : Bytes → Bytes → HttpRequest → HttpRequest
set_param key val r = record r { params = assign less_nocase key val r.params }

unfoldable pub set_cookie : Bytes → Bytes → HttpRequest → HttpRequest
set_cookie key val r = record r { cookies = assign less_nocase key val r.cookies }

unfoldable pub del_header : Bytes → HttpRequest → HttpRequest
del_header key r = record r { headers = erase less_nocase key r.headers }

unfoldable pub del_param : Bytes → HttpRequest → HttpRequest
del_param key r = record r { params = erase less_nocase key r.params }

unfoldable pub del_cookie : Bytes → HttpRequest → HttpRequest
del_cookie key r = record r { cookies = erase less_nocase key r.cookies }

-- `hasHeader`, `hasParam` and `hasCookie` on their maps: the result, and the value that `*val`
-- has afterwards, where a value is asked for.
abbrev pub has_key : Option Bytes → Option Bytes → Bool × Option Bytes
has_key none val = (false, val)
has_key (some v) none = (true, none)
has_key (some v) (some w) = (true, some v)

unfoldable pub has_header : Bytes → Option Bytes → HttpRequest → Bool × Option Bytes
has_header key val r = has_key (find less_nocase key r.headers) val

unfoldable pub has_param : Bytes → Option Bytes → HttpRequest → Bool × Option Bytes
has_param key val r = has_key (find less_nocase key r.params) val

unfoldable pub has_cookie : Bytes → Option Bytes → HttpRequest → Bool × Option Bytes
has_cookie key val r = has_key (find less_nocase key r.cookies) val

-- The same operations of a response.
unfoldable pub get_head : Bytes → Bytes → HttpResponse → Bytes
get_head key default_value r = value_or (find less_nocase key r.headers) default_value

unfoldable pub set_head : Bytes → Bytes → HttpResponse → HttpResponse
set_head key val r = record r { headers = assign less_nocase key val r.headers }

unfoldable pub del_head : Bytes → HttpResponse → HttpResponse
del_head key r = record r { headers = erase less_nocase key r.headers }

-- `checkgetAs` and `getAs` on a map, where `cast` is `boost::lexical_cast<T>`, `none` if it throws.
module _ {ℓ} {T : Type ℓ} (cast : Bytes → Option T) where
  abbrev pub checked : Option T → T → Bool × T
  checked none default_value = (false, default_value)
  checked (some v) default_value = (true, v)

  abbrev pub check_get_as : Option Bytes → T → Bool × T
  check_get_as none default_value = (false, default_value)
  check_get_as (some s) default_value = checked (cast s) default_value

  abbrev pub cast_or : Option T → T → T
  cast_or none default_value = default_value
  cast_or (some v) default_value = v

  abbrev pub get_as : Option Bytes → T → T
  get_as none default_value = default_value
  get_as (some s) default_value = cast_or (cast s) default_value

abbrev pub crlf : Bytes
crlf = b'\r' ∷ b'\n' ∷ []

-- A part with its mark before it, if there is one.
unfoldable pub marked : Bytes → Bytes → Bytes
marked mark part = (if is_empty part then [] else mark) ++ part

abbrev pub version_text : ℕ → Bytes
version_text version =
    bytes "HTTP/" ++ decimal (version / 16) ++ bytes "." ++ decimal (version % 16)

abbrev pub connection_line : Bool → Bytes
connection_line close =
    bytes "connection: " ++ (if close then bytes "close" else bytes "keep-alive") ++ crlf

-- The loop over `m_headers`, which leaves out the connection header.
abbrev pub header_lines : Bytes → MapType → Bytes
header_lines sep [] = []
header_lines sep (e ∷ m) =
    let rest = header_lines sep m in
    if eq_nocase e.0 (bytes "connection") then rest else e.0 ++ sep ++ e.1 ++ crlf ++ rest

abbrev pub body_part : Bytes → Bytes
body_part [] = crlf
body_part (x ∷ xs) = bytes "content-length: " ++ decimal (length (x ∷ xs)) ++ crlf ++ crlf ++ x ∷ xs

-- `HttpRequest::dump`.
unfoldable pub dump_request : HttpRequest → Result Bytes
dump_request r = http_method_to_string r.method >>= λ name. ok (
    name
    ++ bytes " "
    ++ r.path
    ++ marked (bytes "?") r.query
    ++ marked (bytes "#") r.fragment
    ++ bytes " "
    ++ version_text r.version
    ++ crlf
    ++ connection_line r.close
    ++ header_lines (bytes ":") r.headers
    ++ body_part r.body)

abbrev pub reason_text : HttpResponse → Bytes
reason_text r = if is_empty r.reason then http_status_to_string r.status else r.reason

-- `HttpResponse::dump`.
unfoldable pub dump_response : HttpResponse → Bytes
dump_response r =
    version_text r.version
    ++ bytes " "
    ++ decimal r.status
    ++ bytes " "
    ++ reason_text r
    ++ crlf
    ++ header_lines (bytes ": ") r.headers
    ++ connection_line r.close
    ++ body_part r.body
