-- ===== src/Address/V6/PrefixBits.antt =====
-- The bits of what `IPv6Address` of myhttp/address.cpp makes of a prefix length.
use Prim.Native.Nat.{bit_and, bit_or, max, min}
use native.Mathlib.Nat.{pow-suc, one-le-pow, pow-le-pow_right}
use http_practice.Prelude.{
  ℕ, zero, suc, ◌+◌, ◌-◌, ◌/◌, ◌%◌, ◌^◌, ◌≤◌, ◌<◌, ◌≡◌, refl, ap, ◌∙◌, true, false, ◌&&◌, List, [],
  ◌∷◌, arith, ltb, ◌==◌, if◌then◌else◌, length, get_or, set, length-set, replicate,
  length-replicate, inl, inr, Bool-cases,
}
use http_practice.Prelude.Bits.{bit_and_lowest, bit_or_lowest}
use http_practice.Prelude.Results.{ok, Returns}
use http_practice.Address.Masks.{create_mask}
use http_practice.Address.V6.{
  Ipv6Address, ff_from, filled_to, broadcast_ipv6, network_ipv6, subnet_ipv6,
}

abbrev zeros : ℕ → List ℕ
zeros m = replicate m 0

-- The binary digit `t` of a number.
abbrev digit : ℕ → ℕ → ℕ
digit zero x = x % 2
digit (suc t) x = digit t (x / 2)

-- The bit `n` of an address, from the most significant bit of its first byte.
abbrev pub bit_of : List ℕ → ℕ → ℕ
bit_of s n = digit (7 - n % 8) (get_or s (n / 8) 0)

digit-bit_or : (t x y : ℕ) → digit t (bit_or x y) ≡ max (digit t x) (digit t y)
digit-bit_or zero x y = omega (arith, bit_or_lowest x y)
digit-bit_or (suc t) x y =
    ap (digit t) (omega (arith, bit_or_lowest x y)) ∙ digit-bit_or t (x / 2) (y / 2)

digit-bit_and : (t x y : ℕ) → digit t (bit_and x y) ≡ min (digit t x) (digit t y)
digit-bit_and zero x y = omega (arith, bit_and_lowest x y)
digit-bit_and (suc t) x y =
    ap (digit t) (omega (arith, bit_and_lowest x y)) ∙ digit-bit_and t (x / 2) (y / 2)

digit_zero : (t : ℕ) → digit t 0 ≡ 0
digit_zero zero = refl
digit_zero (suc t) = digit_zero t

digit_le : (t x : ℕ) → digit t x ≤ 1
digit_le zero x = omega arith
digit_le (suc t) x = digit_le t (x / 2)

digit_ones : (k t : ℕ) → digit t (2 ^ k - 1) ≡ (if ltb t k then 1 else 0)
digit_ones zero t = digit_zero t ∙ ground arith
digit_ones (suc k) zero = ground (arith, pow-suc 2 k, one-le-pow k 2 (omega arith))
digit_ones (suc k) (suc t) =
    let half : (2 ^ suc k - 1) / 2 ≡ 2 ^ k - 1 = omega (arith, pow-suc 2 k) in
    ap (digit t) half ∙ digit_ones k t ∙ ground arith

get_or-set :
    (s : List ℕ) (i j v : ℕ)
    → i < length s
    → get_or (set s i v) j 0 ≡ (if j == i then v else get_or s j 0)
get_or-set [] i j v h = absurd (omega (arith, h))
get_or-set (x ∷ s) zero zero v h = refl
get_or-set (x ∷ s) zero (suc j) v h = ground arith
get_or-set (x ∷ s) (suc i) zero v h = ground arith
get_or-set (x ∷ s) (suc i) (suc j) v h = ground (arith, get_or-set s i j v (omega (arith, h)))

get_or-ff_from :
    (n : ℕ) (s : List ℕ) (j : ℕ)
    → j < length s
    → get_or (ff_from n s) j 0 ≡ (if ltb j n then get_or s j 0 else 255)
get_or-ff_from n [] j h = absurd (omega (arith, h))
get_or-ff_from zero (x ∷ s) zero h = refl
get_or-ff_from zero (x ∷ s) (suc j) h = ground (arith, get_or-ff_from zero s j (omega (arith, h)))
get_or-ff_from (suc n) (x ∷ s) zero h = ground arith
get_or-ff_from (suc n) (x ∷ s) (suc j) h = ground (arith, get_or-ff_from n s j (omega (arith, h)))

get_or-filled_to :
    (n : ℕ) (s : List ℕ) (j : ℕ)
    → j < length s
    → get_or (filled_to n s) j 0 ≡ (if ltb j n then 255 else get_or s j 0)
get_or-filled_to n [] j h = absurd (omega (arith, h))
get_or-filled_to zero (x ∷ s) j h = ground arith
get_or-filled_to (suc n) (x ∷ s) zero h = ground arith
get_or-filled_to (suc n) (x ∷ s) (suc j) h =
    ground (arith, get_or-filled_to n s j (omega (arith, h)))

digit-complement : (m t x : ℕ) → t < m → x < 2 ^ m → digit t (2 ^ m - 1 - x) ≡ 1 - digit t x
digit-complement zero t x h k = absurd (omega (arith, h))
digit-complement (suc m) zero x h k = omega (arith, k, pow-suc 2 m, one-le-pow m 2 (omega arith))
digit-complement (suc m) (suc t) x h k =
    let half : (2 ^ suc m - 1 - x) / 2 ≡ 2 ^ m - 1 - x / 2 = omega (arith, k, pow-suc 2 m) in
    ap (digit t) half
    ∙ digit-complement m t (x / 2) (omega (arith, h)) (omega (arith, k, pow-suc 2 m))

create_mask-byte : (p : ℕ) → create_mask 8 (p % 8) ≡ ok (2 ^ (8 - p % 8) - 1)
unfolding create_mask
create_mask-byte p =
    let shift : (8 + 2 ^ 64 - p % 8) % 2 ^ 64 ≡ 8 - p % 8 = omega arith in
    let small = pow-le-pow_right {n = 2} (omega arith) {i = 8 - p % 8} {j = 8} (omega arith) in
    rw shift (ground (arith, small))

length-set_at : (s : List ℕ) (i v : ℕ) → length s ≡ 16 → length (set s i v) ≡ 16
length-set_at s i v h = length-set s i v ∙ h

-- The bits of one byte of a broadcast address.
broadcast_digit :
    (s : List ℕ) (p n : ℕ)
    → length s ≡ 16
    → n < 128
    → p < 128
    → bit_of
        (ff_from (p / 8 + 1) (set s (p / 8) (bit_or (get_or s (p / 8) 0) (2 ^ (8 - p % 8) - 1))))
        n
      ≡ (if ltb n p then bit_of s n else 1)
broadcast_digit s p n h k l =
    let v = bit_or (get_or s (p / 8) 0) (2 ^ (8 - p % 8) - 1) in
    let outer =
      get_or-ff_from (p / 8 + 1) (set s (p / 8) v) (n / 8)
        (omega (arith, length-set s (p / 8) v, h, k)) in
    let inner = get_or-set s (p / 8) (n / 8) v (omega (arith, h, l)) in
    let t = 7 - n % 8 in
    elim (Bool-cases (ltb (n / 8) (p / 8))) [
      | inl x ↦
          let front : ltb n p ≡ true = ground (arith, x) in
          let old : get_or (ff_from (p / 8 + 1) (set s (p / 8) v)) (n / 8) 0 ≡ get_or s (n / 8) 0 =
            ground (arith, outer, inner, x) in
          rw front (ap (digit t) old)
      | inr x ↦ elim (Bool-cases (n / 8 == p / 8)) [
        | inl y ↦
            let here : n / 8 ≡ p / 8 = ground (arith, y) in
            let new : get_or (ff_from (p / 8 + 1) (set s (p / 8) v)) (n / 8) 0 ≡ v =
              ground (arith, outer, inner, y) in
            let same = ap (λ (i : ℕ). digit t (get_or s i 0)) here in
            ap (digit t) new
            ∙ digit-bit_or t (get_or s (p / 8) 0) (2 ^ (8 - p % 8) - 1)
            ∙ ground (arith, here, same, digit_ones (8 - p % 8) t, digit_le t (get_or s (n / 8) 0))
        | inr y ↦
            let behind : ltb n p ≡ false = ground (arith, x, y) in
            let ones : get_or (ff_from (p / 8 + 1) (set s (p / 8) v)) (n / 8) 0 ≡ 255 =
              ground (arith, outer, x, y) in
            rw behind (ap (digit t) ones ∙ digit_ones 8 t ∙ ground arith)
      ]
    ]

get_or-zeros : (m j : ℕ) → get_or (zeros m) j 0 ≡ 0
get_or-zeros zero j = refl
get_or-zeros (suc m) zero = refl
get_or-zeros (suc m) (suc j) = get_or-zeros m j

-- The bits of one byte of a subnet mask.
subnet_digit :
    (p n : ℕ)
    → n < 128
    → p < 128
    → bit_of (filled_to (p / 8) (set (replicate 16 0) (p / 8) (255 - (2 ^ (8 - p % 8) - 1)))) n
      ≡ (if ltb n p then 1 else 0)
subnet_digit p n k l =
    let z : List ℕ = zeros 16 in
    let v = 255 - (2 ^ (8 - p % 8) - 1) in
    let t = 7 - n % 8 in
    let byte : ℕ = get_or (filled_to (p / 8) (set z (p / 8) v)) (n / 8) 0 in
    let outer =
      get_or-filled_to (p / 8) (set z (p / 8) v) (n / 8)
        (omega (arith, length-set z (p / 8) v, length-replicate {A = ℕ} 16 0, k)) in
    let inner = get_or-set z (p / 8) (n / 8) v (omega (arith, length-replicate {A = ℕ} 16 0, l)) in
    elim (Bool-cases (ltb (n / 8) (p / 8))) [
      | inl x ↦
          let front : ltb n p ≡ true = ground (arith, x) in
          let full : byte ≡ 255 = ground (arith, outer, x) in
          rw front (ap (digit t) full ∙ digit_ones 8 t ∙ ground arith)
      | inr x ↦ elim (Bool-cases (n / 8 == p / 8)) [
        | inl y ↦
            let here : n / 8 ≡ p / 8 = ground (arith, y) in
            let new : byte ≡ v = ground (arith, outer, inner, x, y) in
            let small =
              pow-le-pow_right {n = 2} (omega arith) {i = 8 - p % 8} {j = 8} (omega arith) in
            ap (digit t) new
            ∙ digit-complement 8 t (2 ^ (8 - p % 8) - 1) (omega arith) (omega (arith, small))
            ∙ ground (arith, here, digit_ones (8 - p % 8) t)
        | inr y ↦
            let behind : ltb n p ≡ false = ground (arith, x, y) in
            let none_set : byte ≡ 0 = ground (arith, outer, inner, x, y, get_or-zeros 16 (n / 8)) in
            rw behind (ap (digit t) none_set ∙ digit_zero t)
      ]
    ]

-- for a prefix of fewer than 128 bits, broadcastAddress of an IPv6 address of 16 bytes keeps
-- each bit of the prefix and the port and sets each bit behind the prefix, and subnetMast has
-- just the bits of the prefix set.
pub ipv6-prefix_bits :
    (p n : ℕ) (a : Ipv6Address)
    → length a.s6_addr ≡ 16
    → p < 128
    → n < 128
    → Returns (broadcast_ipv6 p a) (λ b.
      (b.sin6_port ≡ a.sin6_port)
      × (bit_of b.s6_addr n ≡ (if ltb n p then bit_of a.s6_addr n else 1)))
      × Returns (subnet_ipv6 p) (λ b. bit_of b.s6_addr n ≡ (if ltb n p then 1 else 0))
unfolding broadcast_ipv6 subnet_ipv6
ipv6-prefix_bits p n a h k l =
    let inside : ltb (p / 8) 16 ≡ true = ground (arith, k) in
    let mask = 2 ^ (8 - p % 8) - 1 in
    let changed = set a.s6_addr (p / 8) (bit_or (get_or a.s6_addr (p / 8) 0) mask) in
    (
      (
        record a { s6_addr = ff_from (p / 8 + 1) changed },
        rw (create_mask-byte p, inside) refl,
        (refl, broadcast_digit a.s6_addr p n h l k),
      ),
      (
        record {
          sin6_port = 0;
          s6_addr = filled_to (p / 8) (set (replicate 16 0) (p / 8) (255 - mask));
        },
        rw (create_mask-byte p, inside) refl,
        subnet_digit p n l k,
      ),
    )

-- The bits of one byte of what `networdAddress` gives.
network_digit :
    (s : List ℕ) (p n : ℕ)
    → length s ≡ 16
    → p < 128
    → bit_of (set s (p / 8) (bit_and (get_or s (p / 8) 0) (2 ^ (8 - p % 8) - 1))) n
      ≡ (if (n / 8 == p / 8) && ltb n p then 0 else bit_of s n)
network_digit s p n h l =
    let v = bit_and (get_or s (p / 8) 0) (2 ^ (8 - p % 8) - 1) in
    let inner = get_or-set s (p / 8) (n / 8) v (omega (arith, h, l)) in
    let t = 7 - n % 8 in
    elim (Bool-cases (n / 8 == p / 8)) [
      | inl y ↦
          let here : n / 8 ≡ p / 8 = ground (arith, y) in
          let new : get_or (set s (p / 8) v) (n / 8) 0 ≡ v = ground (arith, inner, y) in
          let same = ap (λ (i : ℕ). digit t (get_or s i 0)) here in
          ap (digit t) new
          ∙ digit-bit_and t (get_or s (p / 8) 0) (2 ^ (8 - p % 8) - 1)
          ∙ ground (arith, here, same, digit_ones (8 - p % 8) t, digit_le t (get_or s (n / 8) 0))
      | inr y ↦
          let old : get_or (set s (p / 8) v) (n / 8) 0 ≡ get_or s (n / 8) 0 =
            ground (arith, inner, y) in
          rw y (ap (digit t) old)
    ]

-- for a prefix of fewer than 128 bits, networdAddress of an IPv6 address of 16 bytes clears
-- just the bits of the prefix that stand in the byte behind the last whole byte of the prefix,
-- and keeps all other bits, those behind the prefix too, and the port.
pub network_ipv6-prefix_bits :
    (p n : ℕ) (a : Ipv6Address)
    → length a.s6_addr ≡ 16
    → p < 128
    → Returns (network_ipv6 p a) (λ b.
      (b.sin6_port ≡ a.sin6_port)
      × (bit_of b.s6_addr n ≡ (if (n / 8 == p / 8) && ltb n p then 0 else bit_of a.s6_addr n)))
unfolding network_ipv6
network_ipv6-prefix_bits p n a h k =
    let inside : ltb (p / 8) 16 ≡ true = ground (arith, k) in
    let mask = 2 ^ (8 - p % 8) - 1 in
    (
      record a { s6_addr = set a.s6_addr (p / 8) (bit_and (get_or a.s6_addr (p / 8) 0) mask) },
      rw (create_mask-byte p, inside) refl,
      (refl, network_digit a.s6_addr p n h k),
    )
