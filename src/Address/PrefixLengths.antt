-- ===== src/Address/PrefixLengths.antt =====
-- The prefix lengths that `GetInterfaceAddresses` of myhttp/address.cpp counts in the masks that
-- `subnetMast` makes.
use http_practice.Prelude.{
  ℕ, zero, suc, ◌≤◌, ◌<◌, ◌≡◌, refl, ap, Bool, true, false, ◌&&◌, ◌||◌, Option, none, some, arith,
  ltb, ◌==◌,
}
use http_practice.Prelude.Results.{Result, ok, err, Returns}
use http_practice.ByteArray.Store.{Endian, little, big}
use http_practice.ByteArray.Fixed.{le_bytes, of_le_bytes}
use http_practice.Address.Masks.{create_mask, count_from, count_bytes}
use http_practice.Address.V4.{Ipv4Address, subnet_mask}
use http_practice.Address.V6.{Ipv6Address, subnet_ipv6}
use http_practice.Address.Interfaces.{count_all}

abbrev all_below : ℕ → (ℕ → Bool) → Bool
all_below zero p = true
all_below (suc n) p = p n && all_below n p

all_below-at : (n : ℕ) (p : ℕ → Bool) (x : ℕ) → all_below n p ≡ true → x < n → p x ≡ true
all_below-at zero p x h lt = absurd (omega (arith, lt))
all_below-at (suc n) p x h lt = ground (arith, h, lt, all_below-at n p x)

abbrev counts : Option ℕ → ℕ → Bool
counts none p = false
counts (some n) p = n == p

abbrev counts_v4 : Result Ipv4Address → ℕ → Bool
counts_v4 (ok m) p = counts (count_bytes 32 m.s_addr) p
counts_v4 (err f) p = false

abbrev counts_v6 : Result Ipv6Address → ℕ → Bool
counts_v6 (ok m) p = count_all m.s6_addr == p
counts_v6 (err f) p = false

v4_table : (host : Endian) → all_below 33 (λ p. ltb p 2 || counts_v4 (subnet_mask host p) p) ≡ true
unfolding subnet_mask le_bytes of_le_bytes create_mask count_from
v4_table little = refl
v4_table big = refl

v6_table : all_below 128 (λ p. counts_v6 (subnet_ipv6 p) p) ≡ true
unfolding subnet_ipv6 create_mask count_from
v6_table = refl

counts_at : (o : Option ℕ) (p : ℕ) → counts o p ≡ true → o ≡ some p
counts_at none p h = absurd (ground (arith, h))
counts_at (some n) p h = ap some (ground (arith, h))

v4_counted :
    (r : Result Ipv4Address) (p : ℕ)
    → counts_v4 r p ≡ true
    → Returns r (λ m. count_bytes 32 m.s_addr ≡ some p)
v4_counted (ok m) p h = (m, refl, counts_at (count_bytes 32 m.s_addr) p h)
v4_counted (err f) p h = absurd (ground (arith, h))

v6_counted :
    (r : Result Ipv6Address) (p : ℕ)
    → counts_v6 r p ≡ true
    → Returns r (λ m. count_all m.s6_addr ≡ p)
v6_counted (ok m) p h = (m, refl, ground (arith, h))
v6_counted (err f) p h = absurd (ground (arith, h))

-- The length of the prefix that GetInterfaceAddresses counts in a mask that subnetMast made is
-- the one it was made for, for IPv4 from 2 to 32 on a machine of either byte order, and for
-- IPv6 below 128.
pub subnet_masks-counted :
    (host : Endian) (p q : ℕ)
    → 2 ≤ p
    → p ≤ 32
    → q < 128
    → Returns (subnet_mask host p) (λ m. count_bytes 32 m.s_addr ≡ some p)
      × Returns (subnet_ipv6 q) (λ m. count_all m.s6_addr ≡ q)
subnet_masks-counted host p q h k l =
    let row =
      all_below-at 33 (λ r. ltb r 2 || counts_v4 (subnet_mask host r) r) p (v4_table host)
        (omega (arith, k)) in
    (
      v4_counted (subnet_mask host p) p (ground (arith, row, h)),
      v6_counted (subnet_ipv6 q) q
          (all_below-at 128 (λ r. counts_v6 (subnet_ipv6 r) r) q v6_table l),
    )
