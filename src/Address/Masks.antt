-- ===== src/Address/Masks.antt =====
-- `CreateMask` and `CountBytes` of myhttp/address.cpp, and the bytes of network numbers.
use Prim.Native.Nat.{bit_and, bit_and-bitwise}
use http_practice.Prelude.{
  ℕ, zero, suc, ◌+◌, ◌-◌, ◌*◌, ◌/◌, ◌%◌, ◌^◌, ◌≤◌, ◌<◌, ◌≡◌, refl, ap, ◌∙◌, Option, none, some,
  arith, leb, inl, inr, Bool-cases, ◌==◌, if◌then◌else◌,
}
use http_practice.Prelude.Bits.{bit_and_lowest}
use http_practice.Prelude.Results.{Result, ok, err, overflow}
use http_practice.ByteArray.Store.{Endian, little, big}
use http_practice.ByteArray.Fixed.{byteswap}
use native.Mathlib.Nat.{pow-suc}

-- `byteswapOnLittleEndian` of a number of `k` bytes.
abbrev pub byteswap_on_little_endian : Endian → ℕ → ℕ → ℕ
byteswap_on_little_endian little k v = byteswap k v
byteswap_on_little_endian big k v = v

-- `CreateMask<T>` for a T of `width` bits. The subtraction is in 64 bits; the 1 is an int, so a shift
-- by 32 or more is undefined, and so is the subtraction from INT_MIN, which a shift by 31 gives.
abbrev pub shift_of : ℕ → ℕ → ℕ
shift_of width bits = (width + 2 ^ 64 - bits) % 2 ^ 64

unfoldable pub create_mask : ℕ → ℕ → Result ℕ
create_mask width bits =
    let shift = shift_of width bits in
    if leb 31 shift then err overflow else ok ((2 ^ shift - 1) % 2 ^ width)

-- `CountBytes`, on fuel: the rounds of its loop, and one to see the end.
unfoldable pub count_from : ℕ → ℕ → ℕ → Option ℕ
count_from zero result value = none
count_from (suc n) result value =
    let rest = count_from n (result + 1) (bit_and value (value - 1)) in
    if value == 0 then some result else rest

abbrev pub count_bytes : ℕ → ℕ → Option ℕ
count_bytes width value = count_from (width + 1) 0 value

-- The ones among the lowest `n` binary digits.
unfoldable pub ones : ℕ → ℕ → ℕ
ones zero x = 0
ones (suc n) x = x % 2 + ones n (x / 2)

bit_and_self : (n x : ℕ) → x ≤ n → bit_and x x ≡ x
bit_and_self n zero h = refl
bit_and_self zero (suc x) h = absurd (omega (arith, h))
bit_and_self (suc n) (suc x) h =
    omega (arith, bit_and_lowest (suc x) (suc x), bit_and_self n (suc x / 2) (omega (arith, h)))

-- `value & (value - 1)` drops one of the ones, the lowest.
ones-bit_and : (n x : ℕ) → 0 < x → x < 2 ^ n → ones n (bit_and x (x - 1)) + 1 ≡ ones n x
unfolding ones
ones-bit_and zero x h k = absurd (omega (arith, h, k))
ones-bit_and (suc n) x h k = elim (Bool-cases (x % 2 == 0)) [
  | inl e ↦
      let even : x % 2 ≡ 0 = ground (arith, e) in
      let halves : (x - 1) / 2 ≡ x / 2 - 1 = omega (arith, even, h) in
      let low : bit_and x (x - 1) ≡ 2 * bit_and (x / 2) (x / 2 - 1) =
        omega (arith, bit_and_lowest x (x - 1), even, ap (bit_and (x / 2)) halves) in
      let half : bit_and x (x - 1) / 2 ≡ bit_and (x / 2) (x / 2 - 1) = omega (arith, low) in
      omega (
        arith,
        even,
        low,
        ap (ones n) half,
        ones-bit_and n (x / 2) (omega (arith, even, h)) (omega (arith, k, pow-suc 2 n)),
      )
  | inr e ↦
      let odd : x % 2 ≡ 1 = ground (arith, e) in
      let halves : (x - 1) / 2 ≡ x / 2 = omega (arith, odd) in
      let low : bit_and x (x - 1) ≡ 2 * (x / 2) = omega (
        arith,
        bit_and_lowest x (x - 1),
        odd,
        ap (bit_and (x / 2)) halves,
        bit_and_self (x / 2) (x / 2) (omega arith),
      ) in
      let half : bit_and x (x - 1) / 2 ≡ x / 2 = omega (arith, low) in
      omega (arith, odd, low, ap (ones n) half)
]

bit_and_le : (n x y : ℕ) → x ≤ n → bit_and x y ≤ x
bit_and_le n zero y h = omega (arith, bit_and-bitwise 0 y)
bit_and_le zero (suc x) y h = absurd (omega (arith, h))
bit_and_le (suc n) (suc x) y h =
    omega (arith, bit_and_lowest (suc x) y, bit_and_le n (suc x / 2) (y / 2) (omega (arith, h)))

bit_and_less : (n x : ℕ) → 0 < x → x < 2 ^ n → bit_and x (x - 1) < 2 ^ n
bit_and_less zero x h k = absurd (omega (arith, h, k))
bit_and_less (suc n) x h k =
    let e = bit_and_lowest x (x - 1) in
    omega (arith, e, k, pow-suc 2 n, bit_and_le (x / 2) (x / 2) ((x - 1) / 2) (omega arith))

ones_le : (n x : ℕ) → ones n x ≤ n
unfolding ones
ones_le zero x = omega arith
ones_le (suc n) x = omega (arith, ones_le n (x / 2))

ones_zero : (n : ℕ) → ones n 0 ≡ 0
unfolding ones
ones_zero zero = refl
ones_zero (suc n) = omega (arith, ones_zero n)

ones_pos : (n x : ℕ) → 0 < x → x < 2 ^ n → 0 < ones n x
unfolding ones
ones_pos zero x h k = absurd (omega (arith, h, k))
ones_pos (suc n) x h k = elim (Bool-cases (x % 2 == 0)) [
  | inl e ↦
      let even : x % 2 ≡ 0 = ground (arith, e) in
      omega (arith, ones_pos n (x / 2) (omega (arith, even, h)) (omega (arith, k, pow-suc 2 n)))
  | inr e ↦ let odd : x % 2 ≡ 1 = ground (arith, e) in omega (arith, odd)
]

count_from-ones : (w n r x : ℕ) → x < 2 ^ w → ones w x < n → count_from n r x ≡ some (r + ones w x)
unfolding count_from
count_from-ones w zero r x h k = absurd (omega (arith, k))
count_from-ones w (suc n) r x h k = elim (Bool-cases (x == 0)) [
  | inl e ↦ let z : x ≡ 0 = ground (arith, e) in rw z (ap some (omega (arith, ones_zero w)))
  | inr e ↦
      let z : 0 < x = ground (arith, e) in
      let drop = ones-bit_and w x z h in
      rw e (
        count_from-ones w n (r + 1) (bit_and x (x - 1)) (bit_and_less w x z h)
          (omega (arith, drop, k))
        ∙ ap some (omega (arith, drop)))
]

-- The loop of CountBytes ends on every number of so many bits as its type has, after a round
-- for each one among its binary digits, and gives their number.
pub count_bytes-ones : (w x : ℕ) → x < 2 ^ w → count_bytes w x ≡ some (ones w x)
count_bytes-ones w x h =
    count_from-ones w (w + 1) 0 x h (omega (arith, ones_le w x)) ∙ ap some (omega arith)
