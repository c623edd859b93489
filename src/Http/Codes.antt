-- ===== src/Http/Codes.antt =====
-- The methods and the status codes of myhttp/http/http.h, with their texts.
use http_practice.Prelude.{
  ℕ, List, [], ◌∷◌, map, Option, none, some, ◌==◌, ltb, get_elem?, if◌then◌else◌,
}
use http_practice.Prelude.Text.{Bytes, bytes, c_str, is_prefix}
use http_practice.Prelude.Results.{Result, ok, err, out_of_bounds}

pub data HttpMethod : Type 0 where
  delete get head post put connect options trace copy lock mkcol move propfind proppatch search
        unlock bind rebind unbind acl report mkactivity checkout merge msearch notify subscribe
        unsubscribe patch purge mkcalendar link unlink source invalid_method :
      HttpMethod

-- `HTTP_METHOD_MAP`, in its order: the number of a method is its index.
abbrev pub method_map : List (HttpMethod × Bytes)
method_map =
    (HttpMethod.delete, bytes "DELETE")
    ∷ (HttpMethod.get, bytes "GET")
    ∷ (HttpMethod.head, bytes "HEAD")
    ∷ (HttpMethod.post, bytes "POST")
    ∷ (HttpMethod.put, bytes "PUT")
    ∷ (HttpMethod.connect, bytes "CONNECT")
    ∷ (HttpMethod.options, bytes "OPTIONS")
    ∷ (HttpMethod.trace, bytes "TRACE")
    ∷ (HttpMethod.copy, bytes "COPY")
    ∷ (HttpMethod.lock, bytes "LOCK")
    ∷ (HttpMethod.mkcol, bytes "MKCOL")
    ∷ (HttpMethod.move, bytes "MOVE")
    ∷ (HttpMethod.propfind, bytes "PROPFIND")
    ∷ (HttpMethod.proppatch, bytes "PROPPATCH")
    ∷ (HttpMethod.search, bytes "SEARCH")
    ∷ (HttpMethod.unlock, bytes "UNLOCK")
    ∷ (HttpMethod.bind, bytes "BIND")
    ∷ (HttpMethod.rebind, bytes "REBIND")
    ∷ (HttpMethod.unbind, bytes "UNBIND")
    ∷ (HttpMethod.acl, bytes "ACL")
    ∷ (HttpMethod.report, bytes "REPORT")
    ∷ (HttpMethod.mkactivity, bytes "MKACTIVITY")
    ∷ (HttpMethod.checkout, bytes "CHECKOUT")
    ∷ (HttpMethod.merge, bytes "MERGE")
    ∷ (HttpMethod.msearch, bytes "M-SEARCH")
    ∷ (HttpMethod.notify, bytes "NOTIFY")
    ∷ (HttpMethod.subscribe, bytes "SUBSCRIBE")
    ∷ (HttpMethod.unsubscribe, bytes "UNSUBSCRIBE")
    ∷ (HttpMethod.patch, bytes "PATCH")
    ∷ (HttpMethod.purge, bytes "PURGE")
    ∷ (HttpMethod.mkcalendar, bytes "MKCALENDAR")
    ∷ (HttpMethod.link, bytes "LINK")
    ∷ (HttpMethod.unlink, bytes "UNLINK")
    ∷ (HttpMethod.source, bytes "SOURCE")
    ∷ []

-- The value of the enumerator.
abbrev pub method_number : HttpMethod → ℕ
method_number HttpMethod.delete = 0
method_number HttpMethod.get = 1
method_number HttpMethod.head = 2
method_number HttpMethod.post = 3
method_number HttpMethod.put = 4
method_number HttpMethod.connect = 5
method_number HttpMethod.options = 6
method_number HttpMethod.trace = 7
method_number HttpMethod.copy = 8
method_number HttpMethod.lock = 9
method_number HttpMethod.mkcol = 10
method_number HttpMethod.move = 11
method_number HttpMethod.propfind = 12
method_number HttpMethod.proppatch = 13
method_number HttpMethod.search = 14
method_number HttpMethod.unlock = 15
method_number HttpMethod.bind = 16
method_number HttpMethod.rebind = 17
method_number HttpMethod.unbind = 18
method_number HttpMethod.acl = 19
method_number HttpMethod.report = 20
method_number HttpMethod.mkactivity = 21
method_number HttpMethod.checkout = 22
method_number HttpMethod.merge = 23
method_number HttpMethod.msearch = 24
method_number HttpMethod.notify = 25
method_number HttpMethod.subscribe = 26
method_number HttpMethod.unsubscribe = 27
method_number HttpMethod.patch = 28
method_number HttpMethod.purge = 29
method_number HttpMethod.mkcalendar = 30
method_number HttpMethod.link = 31
method_number HttpMethod.unlink = 32
method_number HttpMethod.source = 33
method_number HttpMethod.invalid_method = 34

-- The `if`s that the map expands to: the first method whose text the string starts with.
abbrev pub first_method : List (HttpMethod × Bytes) → Bytes → HttpMethod
first_method [] m = HttpMethod.invalid_method
first_method (e ∷ es) m = if is_prefix e.1 m then e.0 else first_method es m

unfoldable pub string_to_http_method : Bytes → HttpMethod
string_to_http_method m = first_method method_map (c_str m)

-- Of a `const char*`: the bytes before its zero.
unfoldable pub chars_to_http_method : Bytes → HttpMethod
chars_to_http_method m = first_method method_map (c_str m)

abbrev pub method_strings : List Bytes
method_strings = map (λ (e : HttpMethod × Bytes). e.1) method_map

-- An element of the array, or a read beyond it.
abbrev pub element : Option Bytes → Result Bytes
element none = err out_of_bounds
element (some s) = ok s

unfoldable pub http_method_to_string : HttpMethod → Result Bytes
http_method_to_string m =
    let idx = method_number m in
    if ltb 34 idx then ok (bytes "<unknown>") else element (get_elem? method_strings idx)

-- `HTTP_STATUS_MAP`. A `HttpStatus` is its value, since the parser casts any number to it.
abbrev pub status_map : List (ℕ × Bytes)
status_map =
    (100, bytes "Continue")
    ∷ (101, bytes "Switching Protocols")
    ∷ (102, bytes "Processing")
    ∷ (200, bytes "OK")
    ∷ (201, bytes "Created")
    ∷ (202, bytes "Accepted")
    ∷ (203, bytes "Non-Authoritative Information")
    ∷ (204, bytes "No Content")
    ∷ (205, bytes "Reset Content")
    ∷ (206, bytes "Partial Content")
    ∷ (207, bytes "Multi-Status")
    ∷ (208, bytes "Already Reported")
    ∷ (226, bytes "IM Used")
    ∷ (300, bytes "Multiple Choices")
    ∷ (301, bytes "Moved Permanently")
    ∷ (302, bytes "Found")
    ∷ (303, bytes "See Other")
    ∷ (304, bytes "Not Modified")
    ∷ (305, bytes "Use Proxy")
    ∷ (307, bytes "Temporary Redirect")
    ∷ (308, bytes "Permanent Redirect")
    ∷ (400, bytes "Bad Request")
    ∷ (401, bytes "Unauthorized")
    ∷ (402, bytes "Payment Required")
    ∷ (403, bytes "Forbidden")
    ∷ (404, bytes "Not Found")
    ∷ (405, bytes "Method Not Allowed")
    ∷ (406, bytes "Not Acceptable")
    ∷ (407, bytes "Proxy Authentication Required")
    ∷ (408, bytes "Request Timeout")
    ∷ (409, bytes "Conflict")
    ∷ (410, bytes "Gone")
    ∷ (411, bytes "Length Required")
    ∷ (412, bytes "Precondition Failed")
    ∷ (413, bytes "Payload Too Large")
    ∷ (414, bytes "URI Too Long")
    ∷ (415, bytes "Unsupported Media Type")
    ∷ (416, bytes "Range Not Satisfiable")
    ∷ (417, bytes "Expectation Failed")
    ∷ (421, bytes "Misdirected Request")
    ∷ (422, bytes "Unprocessable Entity")
    ∷ (423, bytes "Locked")
    ∷ (424, bytes "Failed Dependency")
    ∷ (426, bytes "Upgrade Required")
    ∷ (428, bytes "Precondition Required")
    ∷ (429, bytes "Too Many Requests")
    ∷ (431, bytes "Request Header Fields Too Large")
    ∷ (451, bytes "Unavailable For Legal Reasons")
    ∷ (500, bytes "Internal Server Error")
    ∷ (501, bytes "Not Implemented")
    ∷ (502, bytes "Bad Gateway")
    ∷ (503, bytes "Service Unavailable")
    ∷ (504, bytes "Gateway Timeout")
    ∷ (505, bytes "HTTP Version Not Supported")
    ∷ (506, bytes "Variant Also Negotiates")
    ∷ (507, bytes "Insufficient Storage")
    ∷ (508, bytes "Loop Detected")
    ∷ (510, bytes "Not Extended")
    ∷ (511, bytes "Network Authentication Required")
    ∷ []

abbrev pub status_text : List (ℕ × Bytes) → ℕ → Bytes
status_text [] s = bytes "<unknown>"
status_text (e ∷ es) s = if s == e.0 then e.1 else status_text es s

unfoldable pub http_status_to_string : ℕ → Bytes
http_status_to_string s = status_text status_map s
