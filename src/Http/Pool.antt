-- ===== src/Http/Pool.antt =====
-- `HttpConnectionPool` of myhttp/http/http_connection.cpp. Which sockets are connected, the clock,
-- and how an attempt to connect ends are arguments of each call.
use http_practice.Prelude.{
  ℕ, ◌+◌, ◌-◌, ◌%◌, ◌^◌, Bool, not, ◌||◌, List, [], ◌∷◌, ◌++◌, Option, none, some, ltb, leb,
  if◌then◌else◌, length,
}

-- A connection over a socket; `m_createTime` is 0 and is never set.
pub record HttpConnection : Type 0 where
  pub socket : ℕ
  pub create_time : ℕ
  pub request : ℕ

abbrev pub new_http_connection : ℕ → HttpConnection
new_http_connection socket = record { socket = socket; create_time = 0; request = 0 }

-- The limits, the idle connections and `m_total`, an int32_t by its 32 bits. No operation reads
-- `max_size`.
pub record HttpConnectionPool : Type 0 where
  pub max_size : ℕ
  pub max_alive_time : ℕ
  pub max_request : ℕ
  pub conns : List HttpConnection
  pub total : ℕ

abbrev pub new_pool : ℕ → ℕ → ℕ → HttpConnectionPool
new_pool max_size alive_time max_request = record {
  max_size = max_size;
  max_alive_time = alive_time;
  max_request = max_request;
  conns = [];
  total = 0;
}

-- How `LookupAnyIPAddress`, `CreateTCP` and `connect` end.
pub data Dial : Type 0 where
  no_address no_socket refused : Dial
  connected_to : ℕ → Dial

abbrev pub minus32 : ℕ → ℕ → ℕ
minus32 a b = (a + 2 ^ 32 - b % 2 ^ 32) % 2 ^ 32

-- What the loop of getConnection finds: the connection, those to delete, and the idle ones left.
abbrev pub Scanned : Type 0
Scanned = Option HttpConnection × (List HttpConnection × List HttpConnection)

abbrev pub dropped : HttpConnection → Scanned → Scanned
dropped c r = (r.0, (c ∷ r.1.0, r.1.1))

-- `(m_createTime + m_maxAliveTime) > now_ms`.
abbrev pub is_later : HttpConnection → ℕ → ℕ → Bool
is_later c alive now = ltb now ((c.create_time + alive) % 2 ^ 64)

abbrev pub scan : (ℕ → Bool) → ℕ → ℕ → List HttpConnection → Scanned
scan connected now alive [] = (none, ([], []))
scan connected now alive (c ∷ cs) =
    let rest = scan connected now alive cs in
    if not (connected c.socket)
    then dropped c rest
    else if is_later c alive now
    then dropped c rest
    else (some c, ([], cs))

abbrev pub dialled : Dial → HttpConnectionPool → Option HttpConnection × HttpConnectionPool
dialled (connected_to socket) p =
    (some (new_http_connection socket), record p { total = (p.total + 1) % 2 ^ 32 })
dialled _ p = (none, p)

abbrev pub chosen :
    Option HttpConnection → Dial → HttpConnectionPool → Option HttpConnection × HttpConnectionPool
chosen none dial p = dialled dial p
chosen (some c) dial p = (some c, p)

unfoldable pub get_connection :
    (ℕ → Bool) → ℕ → Dial → HttpConnectionPool → Option HttpConnection × HttpConnectionPool
get_connection connected now dial p =
    let r = scan connected now p.max_alive_time p.conns in
    chosen r.0 dial (record p { conns = r.1.1; total = minus32 p.total (length r.1.0) })

-- `ReleasePtr`, called when the last pointer to a connection goes.
unfoldable pub release_ptr :
    (ℕ → Bool) → ℕ → HttpConnection → HttpConnectionPool → HttpConnectionPool
release_ptr connected now c p =
    let used = (c.request + 1) % 2 ^ 64 in
    if not (connected c.socket)
      || (leb now ((c.create_time + p.max_alive_time) % 2 ^ 64) || ltb p.max_request used)
    then record p { total = minus32 p.total 1 }
    else record p { conns = p.conns ++ (record c { request = used } ∷ []) }
