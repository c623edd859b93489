-- ===== src/Address/V4/Prefixes.antt =====
-- Broadcast and network addresses of `IPv4Address` of myhttp/address.cpp, as numbers.
use Prim.Native.Nat.{bit_and, bit_or, max, min}
use http_practice.Prelude.{
  ℕ, ◌+◌, ◌-◌, ◌*◌, ◌/◌, ◌%◌, ◌^◌, ◌≤◌, ◌<◌, ◌≡◌, refl, sym, ap, ◌∙◌, some, arith, ltb, false,
}
use http_practice.Prelude.Bits.{
  bit_and_lowest, bit_or_lowest, bit_and_mask, bit_or_mask, parted, below,
}
use http_practice.Prelude.Results.{ok}
use native.Mathlib.Nat.{pow-le-pow_right}
use http_practice.ByteArray.Store.{Endian, little, big}
use http_practice.ByteArray.Fixed.{le_bytes, of_le_bytes, byteswap}
use http_practice.Address.Masks.{byteswap_on_little_endian, create_mask}
use http_practice.Address.V4.{new_ipv4, broadcast_address, network_address}

abbrev joined : ℕ → ℕ → ℕ → ℕ → ℕ
joined b0 b1 b2 b3 = b0 + (b1 + (b2 + b3 * 2 ^ 8) * 2 ^ 8) * 2 ^ 8

byteswap-joined :
    (b0 b1 b2 b3 : ℕ)
    → b0 < 2 ^ 8
    → b1 < 2 ^ 8
    → b2 < 2 ^ 8
    → b3 < 2 ^ 8
    → byteswap 4 (joined b0 b1 b2 b3) ≡ joined b3 b2 b1 b0
unfolding le_bytes of_le_bytes
byteswap-joined b0 b1 b2 b3 h0 h1 h2 h3 = omega arith

abbrev rejoined : ℕ → ℕ
rejoined x = joined (x % 2 ^ 8) (x / 2 ^ 8 % 2 ^ 8) (x / 2 ^ 16 % 2 ^ 8) (x / 2 ^ 24)

joined_bytes : (x : ℕ) → x < 2 ^ 32 → x ≡ rejoined x
joined_bytes x h = omega arith

-- An operation on the bits does not mind the order of the bytes.
module _ (f g : ℕ → ℕ → ℕ) (low : (a b : ℕ) → f a b ≡ f (a / 2) (b / 2) * 2 + g (a % 2) (b % 2))
    (z : f 0 0 ≡ 0) (o : (a b : ℕ) → a < 2 → b < 2 → g a b < 2) where
  by_bytes :
      (a0 a1 a2 a3 b0 b1 b2 b3 : ℕ)
      → a0 < 2 ^ 8
      → a1 < 2 ^ 8
      → a2 < 2 ^ 8
      → b0 < 2 ^ 8
      → b1 < 2 ^ 8
      → b2 < 2 ^ 8
      → f (joined a0 a1 a2 a3) (joined b0 b1 b2 b3) ≡ joined (f a0 b0) (f a1 b1) (f a2 b2) (f a3 b3)
  by_bytes a0 a1 a2 a3 b0 b1 b2 b3 p0 p1 p2 q0 q1 q2 = omega (
    arith,
    parted f g low 8 a0 (a1 + (a2 + a3 * 2 ^ 8) * 2 ^ 8) b0 (b1 + (b2 + b3 * 2 ^ 8) * 2 ^ 8) z p0
        q0,
    parted f g low 8 a1 (a2 + a3 * 2 ^ 8) b1 (b2 + b3 * 2 ^ 8) z p1 q1,
    parted f g low 8 a2 a3 b2 b3 z p2 q2,
  )

  swapped_bytes :
      (a0 a1 a2 a3 b0 b1 b2 b3 : ℕ)
      → a0 < 2 ^ 8
      → a1 < 2 ^ 8
      → a2 < 2 ^ 8
      → a3 < 2 ^ 8
      → b0 < 2 ^ 8
      → b1 < 2 ^ 8
      → b2 < 2 ^ 8
      → b3 < 2 ^ 8
      → f (byteswap 4 (joined a0 a1 a2 a3)) (byteswap 4 (joined b0 b1 b2 b3))
        ≡ byteswap 4 (f (joined a0 a1 a2 a3) (joined b0 b1 b2 b3))
  swapped_bytes a0 a1 a2 a3 b0 b1 b2 b3 p0 p1 p2 p3 q0 q1 q2 q3 =
      let small = below f g low 8 in
      rw
        (
          byteswap-joined a0 a1 a2 a3 p0 p1 p2 p3,
          byteswap-joined b0 b1 b2 b3 q0 q1 q2 q3,
          by_bytes a0 a1 a2 a3 b0 b1 b2 b3 p0 p1 p2 q0 q1 q2,
          byteswap-joined (f a0 b0) (f a1 b1) (f a2 b2) (f a3 b3) (small a0 b0 z o p0 q0)
              (small a1 b1 z o p1 q1) (small a2 b2 z o p2 q2) (small a3 b3 z o p3 q3),
        )
        (by_bytes a3 a2 a1 a0 b3 b2 b1 b0 p3 p2 p1 q3 q2 q1)

  swapped :
      (x y : ℕ) → x < 2 ^ 32 → y < 2 ^ 32 → f (byteswap 4 x) (byteswap 4 y) ≡ byteswap 4 (f x y)
  swapped x y h k =
      let e = joined_bytes x h in
      let d = joined_bytes y k in
      ap (λ (t : ℕ). f (byteswap 4 t) (byteswap 4 y)) e
      ∙ ap (λ (t : ℕ). f (byteswap 4 (rejoined x)) (byteswap 4 t)) d
      ∙ swapped_bytes _ _ _ _ _ _ _ _ (omega arith) (omega arith) (omega arith) (omega (arith, h))
          (omega arith) (omega arith) (omega arith) (omega (arith, k))
      ∙ sym (ap (λ (t : ℕ). byteswap 4 (f t y)) e ∙ ap (λ (t : ℕ). byteswap 4 (f (rejoined x) t)) d)

  masked :
      (host : Endian) (x y : ℕ)
      → x < 2 ^ 32
      → y < 2 ^ 32
      → f (byteswap_on_little_endian host 4 x) (byteswap_on_little_endian host 4 y)
        ≡ byteswap_on_little_endian host 4 (f x y)
  masked little x y h k = swapped x y h k
  masked big x y h k = refl

create_mask-ones : (k : ℕ) → k ≤ 30 → create_mask 32 (32 - k) ≡ ok (2 ^ k - 1)
unfolding create_mask
create_mask-ones k h =
    let shift : (32 + 2 ^ 64 - (32 - k)) % 2 ^ 64 ≡ k = omega (arith, h) in
    let small = pow-le-pow_right {n = 2} (omega arith) {i = k} {j = 30} h in
    rw shift (ground (arith, h, small))

-- for a prefix of 32 - k bits with k at most 30, broadcastAddress of an IPv4 address gives the
-- address with the same prefix and its last k bits set, and networdAddress the one whose last
-- k bits are kept and whose prefix is cleared; both keep the port, on a machine of either byte
-- order.
pub prefix_addresses :
    (host : Endian) (k q r port : ℕ)
    → k ≤ 30
    → r < 2 ^ k
    → r + q * 2 ^ k < 2 ^ 32
    → (broadcast_address host (32 - k) (new_ipv4 host (r + q * 2 ^ k) port)
        ≡ ok (some (new_ipv4 host (2 ^ k - 1 + q * 2 ^ k) port)))
      × (network_address host (32 - k) (new_ipv4 host (r + q * 2 ^ k) port)
          ≡ ok (some (new_ipv4 host r port)))
unfolding broadcast_address network_address new_ipv4
prefix_addresses host k q r port h l m =
    let guard : ltb 32 (32 - k) ≡ false = ground (arith, h) in
    let small = pow-le-pow_right {n = 2} (omega arith) {i = k} {j = 30} h in
    let ones : 2 ^ k - 1 < 2 ^ 32 = omega (arith, small) in
    let either =
      masked bit_or max bit_or_lowest refl (λ a b x y. omega (arith, x, y)) host _ _ m ones in
    let both =
      masked bit_and min bit_and_lowest refl (λ a b x y. omega (arith, x, y)) host _ _ m ones in
    (
      rw (guard, create_mask-ones k h, either, bit_or_mask k q r l) refl,
      rw (guard, create_mask-ones k h, both, bit_and_mask k q r l) refl,
    )
