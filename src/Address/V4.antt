-- ===== src/Address/V4.antt =====
-- `IPv4Address` of myhttp/address.cpp. A `sockaddr_in` is its port and its address, both in network
-- order; `host` is the byte order of the machine.
pub mod Prefixes
use Prim.Native.Nat.{bit_and, bit_or}
use http_practice.Prelude.{
  ℕ, ◌+◌, ◌-◌, ◌/◌, ◌%◌, ◌^◌, Bool, List, [], ◌∷◌, ◌++◌, Option, none, some, ltb, if◌then◌else◌,
}
use http_practice.Prelude.Results.{Result, ok, err, ◌>>=◌}
use http_practice.Prelude.Text.{Bytes, decimal}
use http_practice.ByteArray.Store.{Endian}
use http_practice.ByteArray.Fixed.{le_bytes, of_le_bytes}
use http_practice.Address.Masks.{byteswap_on_little_endian, create_mask}

pub record Ipv4Address : Type 0 where
  pub sin_port : ℕ
  pub s_addr : ℕ

unfoldable pub new_ipv4 : Endian → ℕ → ℕ → Ipv4Address
unfolding le_bytes of_le_bytes
new_ipv4 host address port = record {
  sin_port = byteswap_on_little_endian host 2 port;
  s_addr = byteswap_on_little_endian host 4 address;
}

-- `Create`: what `inet_pton` gives of the text, if it is an address.
unfoldable pub create_ipv4 : Endian → (Bytes → Option ℕ) → Bytes → ℕ → Option Ipv4Address
unfolding le_bytes of_le_bytes
create_ipv4 host inet_pton address port = elim (inet_pton address) [
  | none ↦ none
  | some a ↦ some (record { sin_port = byteswap_on_little_endian host 2 port; s_addr = a })
]

unfoldable pub get_port : Endian → Ipv4Address → ℕ
unfolding le_bytes of_le_bytes
get_port host a = byteswap_on_little_endian host 2 a.sin_port

unfoldable pub set_port : Endian → ℕ → Ipv4Address → Ipv4Address
unfolding le_bytes of_le_bytes
set_port host v a = record a { sin_port = byteswap_on_little_endian host 2 v }

-- `insert`.
unfoldable pub ipv4_text : Endian → Ipv4Address → Bytes
unfolding le_bytes of_le_bytes
ipv4_text host a =
    let addr = byteswap_on_little_endian host 4 a.s_addr in
    decimal (addr / 2 ^ 24 % 256)
    ++ b'.' ∷ []
    ++ decimal (addr / 2 ^ 16 % 256)
    ++ b'.' ∷ []
    ++ decimal (addr / 2 ^ 8 % 256)
    ++ b'.' ∷ []
    ++ decimal (addr % 256)
    ++ b':' ∷ []
    ++ decimal (byteswap_on_little_endian host 2 a.sin_port)

abbrev with_mask : (ℕ → ℕ → ℕ) → Endian → Ipv4Address → ℕ → Result (Option Ipv4Address)
with_mask f host a mask =
    ok (some (record a { s_addr = f a.s_addr (byteswap_on_little_endian host 4 mask) }))

unfoldable pub broadcast_address : Endian → ℕ → Ipv4Address → Result (Option Ipv4Address)
unfolding le_bytes of_le_bytes create_mask
broadcast_address host prefix_len a =
    if ltb 32 prefix_len then ok none else create_mask 32 prefix_len >>= with_mask bit_or host a

-- `networdAddress`, which takes the mask as it is and not its complement.
unfoldable pub network_address : Endian → ℕ → Ipv4Address → Result (Option Ipv4Address)
unfolding le_bytes of_le_bytes create_mask
network_address host prefix_len a =
    if ltb 32 prefix_len then ok none else create_mask 32 prefix_len >>= with_mask bit_and host a

-- `subnetMast`.
abbrev inverted : Endian → ℕ → Result Ipv4Address
inverted host mask =
    ok (record { sin_port = 0; s_addr = 2 ^ 32 - 1 - byteswap_on_little_endian host 4 mask })

unfoldable pub subnet_mask : Endian → ℕ → Result Ipv4Address
unfolding le_bytes of_le_bytes create_mask
subnet_mask host prefix_len = create_mask 32 prefix_len >>= inverted host
