-- ===== src/Address/Interfaces.antt =====
-- `GetInterfaceAddresses` of myhttp/address.cpp. What `getifaddrs` lists is an argument; of each
-- interface the address may be null, as its manual says.
use http_practice.Prelude.{
  ℕ, ◌+◌, ◌%◌, ◌^◌, not, ◌&&◌, ◌||◌, List, [], ◌∷◌, ◌++◌, Option, none, some, ◌==◌, if◌then◌else◌,
}
use http_practice.Prelude.Results.{Result, ok, err, null_pointer, ◌>>=◌}
use http_practice.Prelude.Text.{Bytes, bytes, eq_bytes, less_bytes, is_empty}
use http_practice.ByteArray.Store.{Endian}
use http_practice.Address.Masks.{count_bytes}
use http_practice.Address.V4.{new_ipv4}
use http_practice.Address.Lookup.{SockAddr, Address, ipv4, ipv6, made_address, af_inet, af_inet6}

pub record Interface : Type 0 where
  pub ifa_name : Bytes
  pub ifa_addr : Option SockAddr
  pub ifa_netmask : Option SockAddr

-- An address and the length of its prefix.
abbrev pub Prefixed : Type 0
Prefixed = Address × ℕ

abbrev af_unspec : ℕ
af_unspec = 0

abbrev netmask_of : Interface → Result SockAddr
netmask_of i = elim i.ifa_netmask [ none ↦ err null_pointer | some m ↦ ok m ]

-- The loop of `CountBytes` ends for every number of its width.
abbrev pub count_of : Option ℕ → ℕ
count_of none = 0
count_of (some n) = n

abbrev pub count_all : List ℕ → ℕ
count_all [] = 0
count_all (x ∷ xs) = (count_of (count_bytes 8 x) + count_all xs) % 2 ^ 32

-- The switch over the family; another family adds no address.
abbrev pub prefixed : Interface → SockAddr → Result (Option Prefixed)
prefixed i addr =
    let as_v4 = netmask_of i >>= λ m.
    ok (some (made_address addr, count_of (count_bytes 32 m.as_in.s_addr))) in
    let as_v6 = netmask_of i >>= λ m. ok (some (made_address addr, count_all m.as_in6.s6_addr)) in
    if addr.sa_family == af_inet
    then as_v4
    else if addr.sa_family == af_inet6
    then as_v6
    else ok none

-- `insert` into a multimap: behind the entries of the key.
abbrev pub insert_multi : Bytes → Prefixed → List (Bytes × Prefixed) → List (Bytes × Prefixed)
insert_multi k v [] = (k, v) ∷ []
insert_multi k v (e ∷ m) = if less_bytes k e.0 then (k, v) ∷ e ∷ m else e ∷ insert_multi k v m

abbrev add_prefixed : Bytes → Option Prefixed → List (Bytes × Prefixed) → List (Bytes × Prefixed)
add_prefixed k none m = m
add_prefixed k (some v) m = insert_multi k v m

abbrev pub from_family :
    ℕ → Interface → Option SockAddr → List (Bytes × Prefixed) → Result (List (Bytes × Prefixed))
from_family family i none m = err null_pointer
from_family family i (some addr) m =
    let found = prefixed i addr >>= λ p. ok (add_prefixed i.ifa_name p m) in
    if not (family == af_unspec) && not (family == addr.sa_family) then ok m else found

-- The loop over the list. With AF_UNSPEC the family is read behind the test.
unfoldable pub interface_addresses :
    ℕ → List Interface → List (Bytes × Prefixed) → Result (List (Bytes × Prefixed))
interface_addresses family [] m = ok m
interface_addresses family (i ∷ is) m = do
  t ← from_family family i i.ifa_addr m
  interface_addresses family is t

-- `equal_range`.
abbrev pub range_of : Bytes → List (Bytes × Prefixed) → List Prefixed
range_of k [] = []
range_of k (e ∷ m) = if eq_bytes k e.0 then e.1 ∷ range_of k m else range_of k m

abbrev any_addresses : Endian → ℕ → List Prefixed
any_addresses host family =
    (if (family == af_inet) || (family == af_unspec)
      then (ipv4 (new_ipv4 host 0 0), 0) ∷ []
      else [])
    ++ (if (family == af_inet6) || (family == af_unspec)
        then (
          ipv6 (record {
            sin6_port = 0;
            s6_addr = 0 ∷ 0 ∷ 0 ∷ 0 ∷ 0 ∷ 0 ∷ 0 ∷ 0 ∷ 0 ∷ 0 ∷ 0 ∷ 0 ∷ 0 ∷ 0 ∷ 0 ∷ 0 ∷ [];
          }),
          0,
        )
          ∷ []
        else [])

abbrev of_interface :
    Bytes → Option (Result (List (Bytes × Prefixed))) → Result (Option (List Prefixed))
of_interface iface none = ok none
of_interface iface (some r) = r >>= λ m. ok (some (range_of iface m))

-- The addresses of one interface; `none` where `getifaddrs` fails.
unfoldable pub addresses_of :
    Endian → Option (List Interface) → Bytes → ℕ → Result (Option (List Prefixed))
unfolding interface_addresses
addresses_of host listed iface family =
    let found =
      of_interface iface
        (elim listed [ none ↦ none | some is ↦ some (interface_addresses family is []) ]) in
    if is_empty iface || eq_bytes iface (bytes "*")
    then ok (some (any_addresses host family))
    else found
