-- ===== src/Address/Lookup.antt =====
-- `Address::Lookup` and `Create` of myhttp/address.cpp: a host text is taken apart into a node and a
-- service, which `getaddrinfo` turns into socket addresses.
pub mod Hosts
use http_practice.Prelude.{
  ℕ, zero, suc, Bool, true, false, not, ◌&&◌, List, [], ◌∷◌, ◌++◌, Option, none, some, map, ◌==◌,
  if◌then◌else◌,
}
use http_practice.Prelude.Results.{Result, ok, err, out_of_bounds, null_pointer}
use http_practice.Prelude.Text.{Bytes, bytes, c_str, decimal, is_empty}
use http_practice.ByteArray.Store.{Endian}
use http_practice.Address.V4.{Ipv4Address, set_port}
use http_practice.Address.V6.{Ipv6Address, set_ipv6_port}
use http_practice.Address.Unix.{UnixAddress}

-- `memchr`: what stands before the byte and behind it.
abbrev before_found : ℕ → Option (Bytes × Bytes) → Option (Bytes × Bytes)
before_found x none = none
before_found x (some (u, v)) = some (x ∷ u, v)

abbrev pub memchr : ℕ → Bytes → Option (Bytes × Bytes)
memchr c [] = none
memchr c (x ∷ s) = let rest = before_found x (memchr c s) in if x == c then some ([], s) else rest

-- The node and the service, which is null or a C string.
abbrev pub Target : Type 0
Target = Bytes × Option Bytes

abbrev behind_bracket : Bytes → Option Bytes
behind_bracket [] = none
behind_bracket (x ∷ s) = if x == b':' then some (c_str s) else none

abbrev pub in_brackets : Option (Bytes × Bytes) → Target
in_brackets none = ([], none)
in_brackets (some (node, after)) = (node, behind_bracket after)

-- The branch for a host in brackets; the node stays empty where it is none.
abbrev pub bracketed : Bytes → Target
bracketed [] = ([], none)
bracketed (x ∷ s) = if x == b'[' then in_brackets (memchr b']' s) else ([], none)

-- The branch for an empty node: with a second colon the service stays at the first one.
abbrev pub at_second : Bytes → Bytes → Bytes → Option (Bytes × Bytes) → Target
at_second host u v none = (if is_empty u then host else u, some (c_str v))
at_second host u v (some w) = (host, some (c_str (b':' ∷ v)))

abbrev pub at_colon : Bytes → Option (Bytes × Bytes) → Target
at_colon host none = (host, none)
at_colon host (some (u, v)) = at_second host u v (memchr b':' v)

abbrev pub plain : Bytes → Target → Target
plain host ([], service) = at_colon host (memchr b':' host)
plain host (x ∷ node, service) = (x ∷ node, service)

unfoldable pub split_host : Bytes → Target
split_host host = plain host (bracketed host)

-- A `sockaddr`: its family, and what it reads as when cast to a `sockaddr_in` or `sockaddr_in6`.
pub record SockAddr : Type 0 where
  pub sa_family : ℕ
  pub as_in : Ipv4Address
  pub as_in6 : Ipv6Address

-- The classes of addresses that `Create` makes.
pub data Address : Type 0 where
  ipv4 : Ipv4Address → Address
  ipv6 : Ipv6Address → Address
  unknown_address : ℕ → Address

abbrev pub af_inet : ℕ
af_inet = 2

abbrev pub af_inet6 : ℕ
af_inet6 = 10

abbrev pub made_address : SockAddr → Address
made_address addr =
    if addr.sa_family == af_inet
    then ipv4 addr.as_in
    else if addr.sa_family == af_inet6
    then ipv6 addr.as_in6
    else unknown_address addr.sa_family

-- `Create`, null for null.
abbrev pub create_address : Option SockAddr → Option Address
create_address none = none
create_address (some addr) = some (made_address addr)

-- `getaddrinfo` of the C library, with what the hints hold: a list, or an error.
abbrev pub GetAddrInfo : Type 0
GetAddrInfo = Bytes → Option Bytes → ℕ → ℕ → ℕ → Option (List SockAddr)

abbrev lookup_target : GetAddrInfo → ℕ → ℕ → ℕ → Target → Option (List Address)
lookup_target getaddrinfo family type protocol (node, service) =
    elim (getaddrinfo (c_str node) service family type protocol) [
      | none ↦ none
      | some results ↦ some (map made_address results)
    ]

-- `Lookup`: the addresses that it adds, or none where it gives false.
unfoldable pub lookup : GetAddrInfo → Bytes → ℕ → ℕ → ℕ → Option (List Address)
unfolding split_host
lookup getaddrinfo host family type protocol =
    lookup_target getaddrinfo family type protocol (split_host host)

-- `LookupAny`: `result[0]`, which is out of bounds for an empty result.
abbrev first_address : Option (List Address) → Result (Option Address)
first_address none = ok none
first_address (some []) = err out_of_bounds
first_address (some (a ∷ rest)) = ok (some a)

unfoldable pub lookup_any : GetAddrInfo → Bytes → ℕ → ℕ → ℕ → Result (Option Address)
unfolding lookup
lookup_any getaddrinfo host family type protocol =
    first_address (lookup getaddrinfo host family type protocol)

abbrev first_ip : List Address → Option Address
first_ip [] = none
first_ip (ipv4 a ∷ rest) = some (ipv4 a)
first_ip (ipv6 a ∷ rest) = some (ipv6 a)
first_ip (unknown_address n ∷ rest) = first_ip rest

abbrev first_ip_of : Option (List Address) → Option Address
first_ip_of none = none
first_ip_of (some l) = first_ip l

-- `LookupAnyIPAddress`.
unfoldable pub lookup_any_ip_address : GetAddrInfo → Bytes → ℕ → ℕ → ℕ → Option Address
unfolding lookup
lookup_any_ip_address getaddrinfo host family type protocol =
    first_ip_of (lookup getaddrinfo host family type protocol)

-- `setPort` of an address that is an IPAddress.
abbrev with_port : Endian → ℕ → Address → Option Address
with_port host port (ipv4 a) = some (ipv4 (set_port host port a))
with_port host port (ipv6 a) = some (ipv6 (set_ipv6_port host port a))
with_port host port (unknown_address n) = none

abbrev first_with_port : Endian → ℕ → Option (List SockAddr) → Result (Option Address)
first_with_port host port none = ok none
first_with_port host port (some []) = err null_pointer
first_with_port host port (some (a ∷ rest)) = ok (with_port host port (made_address a))

-- `IPAddress::Create`: what `getaddrinfo` gives of a numeric host, the first of it.
unfoldable pub create_ip :
    Endian → (Bytes → Option (List SockAddr)) → Bytes → ℕ → Result (Option Address)
create_ip host getaddrinfo address port = first_with_port host port (getaddrinfo address)

-- `UnknownAddress::insert`, of the family.
abbrev pub unknown_address_text : ℕ → Bytes
unknown_address_text family = bytes "[UnknownAddress family=" ++ decimal family ++ bytes "]"
