-- ===== src/Address/Tests.antt =====
-- Runs of the addresses at concrete inputs.
use http_practice.Prelude.{
  ◌+◌, ◌-◌, ◌*◌, ◌/◌, ◌^◌, ◌&&◌, ◌==◌, ◌≡◌, refl, [], ◌∷◌, none, some, arith, ltb, if◌then◌else◌,
}
use http_practice.Prelude.Results.{ok, Returns}
use http_practice.Prelude.Text.{Bytes, bytes, less_bytes, eq_bytes}
use http_practice.ByteArray.Store.{little}
use http_practice.ByteArray.Fixed.{le_bytes, of_le_bytes}
use http_practice.Address.Masks.{ones, count_bytes, count_bytes-ones}
use http_practice.Address.V4.{new_ipv4, ipv4_text, broadcast_address, network_address, subnet_mask}
use http_practice.Address.V4.Prefixes.{prefix_addresses}
use http_practice.Address.V6.{Ipv6Address, ipv6_text, broadcast_ipv6, network_ipv6, subnet_ipv6}
use http_practice.Address.V6.PrefixBits.{bit_of, ipv6-prefix_bits, network_ipv6-prefix_bits}
use http_practice.Address.Unix.{unix_of_path, Prints, InField, logic_error, unix_of_path-Prints}
use http_practice.Address.Order.{less_address, eq_address, address_order}
use http_practice.Address.Lookup.{split_host}
use http_practice.Address.Lookup.Hosts.{split_host-forms}
use http_practice.Address.Interfaces.{count_all}
use http_practice.Address.PrefixLengths.{subnet_masks-counted}

ipv4_text_test : ipv4_text little (new_ipv4 little 0xc0a8_0107 80) ≡ bytes "192.168.1.7:80"
unfolding ipv4_text new_ipv4 le_bytes of_le_bytes
ipv4_text_test = refl

abbrev an_ipv6 : Ipv6Address
an_ipv6 = record {
  sin6_port = 0;
  s6_addr = 0x20 ∷ 1 ∷ 0 ∷ 0 ∷ 0 ∷ 0 ∷ 0 ∷ 0 ∷ 0 ∷ 0 ∷ 0 ∷ 0 ∷ 0 ∷ 0 ∷ 0 ∷ 9 ∷ [];
}

ipv6_text_test : ipv6_text little an_ipv6 ≡ bytes "[2001::9]:0"
unfolding ipv6_text le_bytes of_le_bytes
ipv6_text_test = refl

prefix_addresses_example :
    (broadcast_address little 24 (new_ipv4 little (7 + 0xc0a801 * 2 ^ 8) 80)
      ≡ ok (some (new_ipv4 little (2 ^ 8 - 1 + 0xc0a801 * 2 ^ 8) 80)))
    × (network_address little 24 (new_ipv4 little (7 + 0xc0a801 * 2 ^ 8) 80)
        ≡ ok (some (new_ipv4 little 7 80)))
prefix_addresses_example =
    prefix_addresses little 8 0xc0a801 7 80 (omega arith) (omega arith) (omega arith)

ipv6-prefix_bits_example :
    Returns (broadcast_ipv6 20 an_ipv6) (λ b.
      (b.sin6_port ≡ an_ipv6.sin6_port)
      × (bit_of b.s6_addr 2 ≡ (if ltb 2 20 then bit_of an_ipv6.s6_addr 2 else 1)))
    × Returns (subnet_ipv6 20) (λ b. bit_of b.s6_addr 2 ≡ (if ltb 2 20 then 1 else 0))
ipv6-prefix_bits_example = ipv6-prefix_bits 20 2 an_ipv6 refl (omega arith) (omega arith)

network_ipv6-prefix_bits_example : Returns (network_ipv6 20 an_ipv6) (λ b.
    (b.sin6_port ≡ an_ipv6.sin6_port)
    × (bit_of b.s6_addr 2
        ≡ (if (2 / 8 == 20 / 8) && ltb 2 20 then 0 else bit_of an_ipv6.s6_addr 2)))
network_ipv6-prefix_bits_example = network_ipv6-prefix_bits 20 2 an_ipv6 refl (omega arith)

subnet_masks-counted_example :
    Returns (subnet_mask little 24) (λ m. count_bytes 32 m.s_addr ≡ some 24)
    × Returns (subnet_ipv6 64) (λ m. count_all m.s6_addr ≡ 64)
subnet_masks-counted_example =
    subnet_masks-counted little 24 64 (omega arith) (omega arith) (omega arith)

count_bytes-ones_example : count_bytes 8 0xf0 ≡ some (ones 8 0xf0)
count_bytes-ones_example = count_bytes-ones 8 0xf0 (omega arith)

abbrev a_long_path : Bytes
a_long_path =
    bytes
      "/var/run/a/socket/with/a/path/that/is/much/too/long/for/the/field/of/the/structure/in/which/it/has/to/stand/at/last"

unix_of_path-Prints_example :
    Prints (unix_of_path (bytes "/tmp/s")) (bytes "/tmp/s")
    × Prints (unix_of_path (0 ∷ bytes "abc")) (bytes "\\0abc")
    × (unix_of_path (b'/' ∷ a_long_path) ≡ logic_error)
    × InField (unix_of_path (bytes "/tmp/s"))
unix_of_path-Prints_example =
    unix_of_path-Prints b'/' b'/' (bytes "tmp/s") (bytes "abc") a_long_path (bytes "/tmp/s") refl
      (omega arith) (omega arith) refl (omega arith) (omega arith)

address_order_example :
    (less_address (2 ∷ 0 ∷ []) (2 ∷ 0 ∷ 1 ∷ []) ≡ less_bytes (2 ∷ 0 ∷ []) (2 ∷ 0 ∷ 1 ∷ []))
    × (eq_address (2 ∷ 0 ∷ []) (2 ∷ 0 ∷ 1 ∷ []) ≡ eq_bytes (2 ∷ 0 ∷ []) (2 ∷ 0 ∷ 1 ∷ []))
address_order_example = address_order (2 ∷ 0 ∷ []) (2 ∷ 0 ∷ 1 ∷ [])

split_host-forms_example :
    (split_host (bytes "example") ≡ (bytes "example", none))
    × (split_host (bytes "example:80") ≡ (bytes "example", some (bytes "80")))
    × (split_host (bytes "[::1]") ≡ (bytes "::1", none))
    × (split_host (bytes "[::1]:80") ≡ (bytes "::1", some (bytes "80")))
split_host-forms_example =
    split_host-forms b'e' b':' (bytes "xample") (bytes ":1") (bytes "80") refl refl refl refl refl
