-- ===== src/Address/V6.antt =====
-- `IPv6Address` of myhttp/address.cpp: a `sockaddr_in6` is its port, in network order, and the
-- sixteen bytes of its address.
pub mod PrefixBits
use Prim.Native.Nat.{bit_and, bit_or}
use http_practice.Prelude.{
  ℕ, zero, suc, ◌+◌, ◌-◌, ◌*◌, ◌/◌, ◌%◌, ◌^◌, Bool, true, false, not, ◌&&◌, ◌||◌, List, [], ◌∷◌,
  ◌++◌, Option, none, some, ltb, ◌==◌, if◌then◌else◌, length, get_or, set, replicate,
}
use http_practice.Prelude.Results.{Result, ok, err, out_of_bounds, ◌>>=◌}
use http_practice.Prelude.Text.{Bytes, bytes, decimal}
use http_practice.ByteArray.Store.{Endian}
use http_practice.ByteArray.Fixed.{le_bytes, of_le_bytes, load}
use http_practice.Address.Masks.{byteswap_on_little_endian, create_mask}

pub record Ipv6Address : Type 0 where
  pub sin6_port : ℕ
  pub s6_addr : List ℕ

unfoldable pub new_ipv6 : Endian → List ℕ → ℕ → Ipv6Address
unfolding le_bytes of_le_bytes
new_ipv6 host address port = record {
  sin6_port = byteswap_on_little_endian host 2 port;
  s6_addr = address;
}

-- `Create`: what `inet_pton` gives of the text, if it is an address.
unfoldable pub create_ipv6 : Endian → (Bytes → Option (List ℕ)) → Bytes → ℕ → Option Ipv6Address
unfolding new_ipv6
create_ipv6 host inet_pton address port = elim (inet_pton address) [
  | none ↦ none
  | some a ↦ some (new_ipv6 host a port)
]

unfoldable pub get_ipv6_port : Endian → Ipv6Address → ℕ
unfolding le_bytes of_le_bytes
get_ipv6_port host a = byteswap_on_little_endian host 2 a.sin6_port

unfoldable pub set_ipv6_port : Endian → ℕ → Ipv6Address → Ipv6Address
unfolding le_bytes of_le_bytes
set_ipv6_port host v a = record a { sin6_port = byteswap_on_little_endian host 2 v }

-- The byte at an index of the array, replaced by what `f` makes of it and of the mask.
abbrev at_index : (ℕ → ℕ → ℕ) → ℕ → Ipv6Address → ℕ → Result Ipv6Address
at_index f i a mask =
    if ltb i 16
    then ok (record a { s6_addr = set a.s6_addr i (f (get_or a.s6_addr i 0) mask) })
    else err out_of_bounds

-- The loop that sets the bytes from an index on to 0xff.
abbrev pub ff_from : ℕ → List ℕ → List ℕ
ff_from n [] = []
ff_from zero (x ∷ xs) = 255 ∷ ff_from zero xs
ff_from (suc n) (x ∷ xs) = x ∷ ff_from n xs

abbrev rest_filled : ℕ → Ipv6Address → Result Ipv6Address
rest_filled i a = ok (record a { s6_addr = ff_from (i + 1) a.s6_addr })

unfoldable pub broadcast_ipv6 : ℕ → Ipv6Address → Result Ipv6Address
unfolding create_mask
broadcast_ipv6 prefix_len a = do
  mask ← create_mask 8 (prefix_len % 8)
  b ← at_index bit_or (prefix_len / 8) a mask
  rest_filled (prefix_len / 8) b

-- `networdAddress`.
unfoldable pub network_ipv6 : ℕ → Ipv6Address → Result Ipv6Address
unfolding create_mask
network_ipv6 prefix_len a = create_mask 8 (prefix_len % 8) >>= at_index bit_and (prefix_len / 8) a

-- The loop of `subnetMast`, up to an index.
abbrev pub filled_to : ℕ → List ℕ → List ℕ
filled_to n [] = []
filled_to zero (x ∷ xs) = x ∷ xs
filled_to (suc n) (x ∷ xs) = 255 ∷ filled_to n xs

abbrev front_filled : ℕ → Ipv6Address → Result Ipv6Address
front_filled i a = ok (record a { s6_addr = filled_to i a.s6_addr })

-- `~` of a byte, as it is stored.
abbrev complement : ℕ → ℕ → ℕ
complement old mask = 255 - mask

unfoldable pub subnet_ipv6 : ℕ → Result Ipv6Address
unfolding create_mask
subnet_ipv6 prefix_len = do
  mask ← create_mask 8 (prefix_len % 8)
  b ← at_index complement (prefix_len / 8) (record { sin6_port = 0; s6_addr = replicate 16 0 }) mask
  front_filled (prefix_len / 8) b

-- A number in hexadecimal digits, on fuel.
abbrev hex_char : ℕ → ℕ
hex_char d = if ltb d 10 then b'0' + d else b'a' + (d - 10)

abbrev hex_digits : ℕ → ℕ → Bytes → Bytes
hex_digits zero n after = after
hex_digits (suc fuel) n after =
    let rest = hex_digits fuel (n / 16) (hex_char (n % 16) ∷ after) in
    if ltb n 16 then hex_char n ∷ after else rest

-- The `uint16_t`s at which the bytes of the address are read.
abbrev words : Endian → List ℕ → List ℕ
words host (x ∷ y ∷ xs) = load host (x ∷ y ∷ []) ∷ words host xs
words host _ = []

-- The loop of `insert`: whether a group stands before, that group, and `used_zeros`.
abbrev groups_text : Endian → Bool → ℕ → Bool → List ℕ → Bytes
groups_text host inside before used_zeros [] =
    if not used_zeros && (before == 0) then bytes "::" else []
groups_text host inside before used_zeros (g ∷ gs) =
    let opened = inside && (before == 0) && not used_zeros in
    let skipped = groups_text host true g used_zeros gs in
    let rest = groups_text host true g (used_zeros || opened) gs in
    if (g == 0) && not used_zeros
    then skipped
    else (if opened then b':' ∷ [] else [])
      ++ (if inside then b':' ∷ [] else [])
      ++ hex_digits 4 (byteswap_on_little_endian host 2 g) []
      ++ rest

unfoldable pub ipv6_text : Endian → Ipv6Address → Bytes
unfolding le_bytes of_le_bytes
ipv6_text host a =
    b'[' ∷ groups_text host false 1 false (words host a.s6_addr)
    ++ bytes "]:"
    ++ decimal (byteswap_on_little_endian host 2 a.sin6_port)
