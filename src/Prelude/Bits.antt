-- ===== src/Prelude/Bits.antt =====
-- Masks and shifts at variables: what `&`, `|` and `<<` do to the digits of a number.
use Prim.Native.Nat.{
  min, max, bit_and, bit_or, bit_xor, bit_xor-bitwise, differ, digits, bit_and-bitwise,
  bit_or-bitwise,
}
use http_practice.Prelude.{
  ℕ, zero, suc, ◌+◌, ◌-◌, ◌*◌, ◌/◌, ◌%◌, ◌^◌, ◌≤◌, ◌<◌, ◌≡◌, refl, ap, sym, ◌∙◌, arith,
}
use native.Mathlib.Nat.{pow-suc}

-- One proof for the three operations: `f` acts on single bits, and `z` on what is left of the
-- second number where the first has run out; there `f` must agree with it.
module _ (z : ℕ → ℕ) (f : ℕ → ℕ → ℕ) where
  -- More digits than the first number has change nothing.
  surplus : (extra n a b : ℕ) → a ≤ n → digits z f (n + extra) a b ≡ digits z f n a b
  surplus extra zero zero b h = at_zero (0 + extra)
    where
      at_zero : (m : ℕ) → digits z f m 0 b ≡ z b
      at_zero zero = refl
      at_zero (suc m) = refl
  surplus extra zero (suc a) b h = absurd (omega arith)
  surplus extra (suc n) zero b h = let e : suc n + extra ≡ suc (n + extra) = omega arith in rw e
  surplus extra (suc n) (suc a) b h =
      let e : suc n + extra ≡ suc (n + extra) = omega arith in
      rw (e, surplus extra n (suc a / 2) (b / 2) (omega arith))

  -- The lowest bit, and the rest of the digits.
  lowest :
      ((b : ℕ) → z b ≡ z (b / 2) * 2 + f 0 (b % 2))
      → (a b : ℕ) → digits z f a a b ≡ digits z f (a / 2) (a / 2) (b / 2) * 2 + f (a % 2) (b % 2)
  lowest run_out zero b = run_out b
  lowest run_out (suc a) b =
      let half = suc a / 2 in
      let e : half + (a - half) ≡ a = omega arith in
      let cut : digits z f a half (b / 2) ≡ digits z f half half (b / 2) =
        rw e at (surplus (a - half) half half (b / 2) (omega arith)) in
      ap (λ (t : ℕ). t * 2 + f (suc a % 2) (b % 2)) cut

pub bit_or_lowest : (a b : ℕ) → bit_or a b ≡ bit_or (a / 2) (b / 2) * 2 + max (a % 2) (b % 2)
bit_or_lowest a b =
    bit_or-bitwise a b
    ∙ lowest (λ t. t) max (λ t. omega arith) a b
    ∙ ap (λ (t : ℕ). t * 2 + max (a % 2) (b % 2)) (sym (bit_or-bitwise (a / 2) (b / 2)))

pub bit_and_lowest : (a b : ℕ) → bit_and a b ≡ bit_and (a / 2) (b / 2) * 2 + min (a % 2) (b % 2)
bit_and_lowest a b =
    bit_and-bitwise a b
    ∙ lowest (λ t. 0) min (λ t. omega arith) a b
    ∙ ap (λ (t : ℕ). t * 2 + min (a % 2) (b % 2)) (sym (bit_and-bitwise (a / 2) (b / 2)))

bit_xor_lowest : (a b : ℕ) → bit_xor a b ≡ bit_xor (a / 2) (b / 2) * 2 + differ (a % 2) (b % 2)
bit_xor_lowest a b =
    bit_xor-bitwise a b
    ∙ lowest (λ t. t) differ (λ t. omega arith) a b
    ∙ ap (λ (t : ℕ). t * 2 + differ (a % 2) (b % 2)) (sym (bit_xor-bitwise (a / 2) (b / 2)))

-- `x & 0`, by halving until nothing is left.
and_nothing : (k x : ℕ) → x ≤ k → bit_and x 0 ≡ 0
and_nothing k zero h = bit_and-bitwise 0 0
and_nothing zero (suc x) h = absurd (omega arith)
and_nothing (suc k) (suc x) h =
    omega (arith, bit_and_lowest (suc x) 0, and_nothing k (suc x / 2) (omega arith))

-- `x & 1`, and up to `x & 0x7F`, a bit at a time.
pub bit_and_low1 : (x : ℕ) → bit_and x 1 ≡ x % 2
bit_and_low1 x = omega (arith, bit_and_lowest x 1, and_nothing (x / 2) (x / 2) (omega arith))

bit_and_low2 : (a : ℕ) → bit_and a 3 ≡ a % 4
bit_and_low2 a = omega (arith, bit_and_lowest a 3, bit_and_low1 (a / 2))

bit_and_low3 : (a : ℕ) → bit_and a 7 ≡ a % 8
bit_and_low3 a = omega (arith, bit_and_lowest a 7, bit_and_low2 (a / 2))

bit_and_low4 : (a : ℕ) → bit_and a 15 ≡ a % 16
bit_and_low4 a = omega (arith, bit_and_lowest a 15, bit_and_low3 (a / 2))

bit_and_low5 : (a : ℕ) → bit_and a 31 ≡ a % 32
bit_and_low5 a = omega (arith, bit_and_lowest a 31, bit_and_low4 (a / 2))

bit_and_low6 : (a : ℕ) → bit_and a 63 ≡ a % 64
bit_and_low6 a = omega (arith, bit_and_lowest a 63, bit_and_low5 (a / 2))

pub bit_and_low7 : (a : ℕ) → bit_and a 127 ≡ a % 128
bit_and_low7 a = omega (arith, bit_and_lowest a 127, bit_and_low6 (a / 2))

-- `x | (y << k)` is a sum where `x` has k bits.
pub bit_or_disjoint : (k x y : ℕ) → x < 2 ^ k → bit_or x (y * 2 ^ k) ≡ x + y * 2 ^ k
bit_or_disjoint zero zero y h = bit_or-bitwise 0 (y * 2 ^ 0) ∙ omega arith
bit_or_disjoint zero (suc x) y h = absurd (omega arith)
bit_or_disjoint (suc k) x y h =
    let e : y * 2 ^ suc k ≡ 2 * (y * 2 ^ k) = rw (pow-suc 2 k) (omega arith) in
    let small : x / 2 < 2 ^ k = omega (arith, pow-suc 2 k) in
    let half : 2 * (y * 2 ^ k) / 2 ≡ y * 2 ^ k = omega arith in
    rw (e, bit_or_lowest x (2 * (y * 2 ^ k)), half)
      (omega (arith, bit_or_disjoint k (x / 2) y small))

-- `x | 0x80` below 0x80.
pub bit_or_high : (a : ℕ) → a < 128 → bit_or a 128 ≡ a + 128
bit_or_high a h = bit_or_disjoint 7 a 1 h

-- `x ^ 0` and `x ^ (all ones)`.
differ_zero : (r : ℕ) → differ r 0 ≡ r
differ_zero zero = refl
differ_zero (suc r) = refl

differ_one : (r : ℕ) → r < 2 → differ r 1 ≡ 1 - r
differ_one zero h = refl
differ_one (suc zero) h = refl
differ_one (suc (suc r)) h = absurd (omega arith)

bit_xor-zero_fuel : (n a : ℕ) → a ≤ n → bit_xor a 0 ≡ a
bit_xor-zero_fuel n zero h = refl
bit_xor-zero_fuel zero (suc a) h = absurd (omega arith)
bit_xor-zero_fuel (suc n) (suc a) h = omega (
  arith,
  bit_xor_lowest (suc a) 0,
  differ_zero (suc a % 2),
  bit_xor-zero_fuel n (suc a / 2) (omega arith),
)

pub bit_xor-zero : (a : ℕ) → bit_xor a 0 ≡ a
bit_xor-zero a = bit_xor-zero_fuel a a (omega arith)

pub bit_xor_ones : (k x : ℕ) → x < 2 ^ k → bit_xor x (2 ^ k - 1) ≡ 2 ^ k - 1 - x
bit_xor_ones zero zero h = refl
bit_xor_ones zero (suc x) h = absurd (omega arith)
bit_xor_ones (suc k) x h =
    let e : 2 ^ suc k ≡ 2 * 2 ^ k = rw (pow-suc 2 k) (omega arith) in
    let half : (2 * 2 ^ k - 1) / 2 ≡ 2 ^ k - 1 = omega arith in
    let odd : (2 * 2 ^ k - 1) % 2 ≡ 1 = omega (arith, e) in
    rw (e, bit_xor_lowest x (2 * 2 ^ k - 1), half, odd)
      (omega (arith, e, bit_xor_ones k (x / 2) (omega arith), differ_one (x % 2) (omega arith)))

bit_or-zero_fuel : (n a : ℕ) → a ≤ n → bit_or a 0 ≡ a
bit_or-zero_fuel n zero h = refl
bit_or-zero_fuel zero (suc a) h = absurd (omega (arith, h))
bit_or-zero_fuel (suc n) (suc a) h =
    omega (arith, bit_or_lowest (suc a) 0, bit_or-zero_fuel n (suc a / 2) (omega (arith, h)))

-- The bits of a mask of `k` ones, and those above.
pub bit_or_mask :
    (k q r : ℕ) → r < 2 ^ k → bit_or (r + q * 2 ^ k) (2 ^ k - 1) ≡ 2 ^ k - 1 + q * 2 ^ k
bit_or_mask zero q r h =
    let e : r + q * 2 ^ 0 ≡ q = omega (arith, h) in
    rw e (omega (arith, bit_or-zero_fuel q q (omega arith)))
bit_or_mask (suc k) q r h =
    let two : 2 ^ suc k ≡ 2 * 2 ^ k = rw (pow-suc 2 k) (omega arith) in
    let s : q * (2 * 2 ^ k) ≡ 2 * (q * 2 ^ k) = omega arith in
    let a : (r + 2 * (q * 2 ^ k)) / 2 ≡ r / 2 + q * 2 ^ k = omega arith in
    let b : (2 * 2 ^ k - 1) / 2 ≡ 2 ^ k - 1 = omega arith in
    let odd : (2 * 2 ^ k - 1) % 2 ≡ 1 = omega (arith, two) in
    rw (two, s, bit_or_lowest (r + 2 * (q * 2 ^ k)) (2 * 2 ^ k - 1), a, b, odd)
      (omega (arith, two, bit_or_mask k q (r / 2) (omega (arith, two, h))))

pub bit_and_mask : (k q r : ℕ) → r < 2 ^ k → bit_and (r + q * 2 ^ k) (2 ^ k - 1) ≡ r
bit_and_mask zero q r h =
    let e : r + q * 2 ^ 0 ≡ q = omega (arith, h) in
    rw e (omega (arith, h, and_nothing q q (omega arith)))
bit_and_mask (suc k) q r h =
    let two : 2 ^ suc k ≡ 2 * 2 ^ k = rw (pow-suc 2 k) (omega arith) in
    let s : q * (2 * 2 ^ k) ≡ 2 * (q * 2 ^ k) = omega arith in
    let a : (r + 2 * (q * 2 ^ k)) / 2 ≡ r / 2 + q * 2 ^ k = omega arith in
    let b : (2 * 2 ^ k - 1) / 2 ≡ 2 ^ k - 1 = omega arith in
    let odd : (2 * 2 ^ k - 1) % 2 ≡ 1 = omega (arith, two) in
    rw (two, s, bit_and_lowest (r + 2 * (q * 2 ^ k)) (2 * 2 ^ k - 1), a, b, odd)
      (omega (arith, two, bit_and_mask k q (r / 2) (omega (arith, two, h))))

-- `f` acts on the digits above and below a bit apart.
module _ (f g : ℕ → ℕ → ℕ)
    (low : (a b : ℕ) → f a b ≡ f (a / 2) (b / 2) * 2 + g (a % 2) (b % 2)) where
  pub parted :
      (k x u y v : ℕ)
      → f 0 0 ≡ 0
      → x < 2 ^ k
      → y < 2 ^ k
      → f (x + u * 2 ^ k) (y + v * 2 ^ k) ≡ f x y + f u v * 2 ^ k
  parted zero x u y v z h l =
      let e : x + u * 2 ^ 0 ≡ u = omega arith in
      let d : y + v * 2 ^ 0 ≡ v = omega arith in
      let a : x ≡ 0 = omega arith in let b : y ≡ 0 = omega arith in rw (e, d, a, b, z) (omega arith)
  parted (suc k) x u y v z h l =
      let two : 2 ^ suc k ≡ 2 * 2 ^ k = rw (pow-suc 2 k) (omega arith) in
      let s : u * (2 * 2 ^ k) ≡ 2 * (u * 2 ^ k) = omega arith in
      let t : v * (2 * 2 ^ k) ≡ 2 * (v * 2 ^ k) = omega arith in
      let a : (x + 2 * (u * 2 ^ k)) / 2 ≡ x / 2 + u * 2 ^ k = omega arith in
      let b : (y + 2 * (v * 2 ^ k)) / 2 ≡ y / 2 + v * 2 ^ k = omega arith in
      let c : (x + 2 * (u * 2 ^ k)) % 2 ≡ x % 2 = omega arith in
      let d : (y + 2 * (v * 2 ^ k)) % 2 ≡ y % 2 = omega arith in
      rw (two, s, t, low (x + 2 * (u * 2 ^ k)) (y + 2 * (v * 2 ^ k)), a, b, c, d)
        (omega (
          arith,
          low x y,
          parted k (x / 2) u (y / 2) v z (omega (arith, two, h)) (omega (arith, two, l)),
        ))

  pub below :
      (k x y : ℕ)
      → f 0 0 ≡ 0
      → ((a b : ℕ) → a < 2 → b < 2 → g a b < 2)
      → x < 2 ^ k
      → y < 2 ^ k
      → f x y < 2 ^ k
  below zero x y z o h l =
      let a : x ≡ 0 = omega arith in let b : y ≡ 0 = omega arith in rw (a, b, z) (omega arith)
  below (suc k) x y z o h l =
      let two : 2 ^ suc k ≡ 2 * 2 ^ k = rw (pow-suc 2 k) (omega arith) in
      omega (
        arith,
        two,
        low x y,
        o (x % 2) (y % 2) (omega arith) (omega arith),
        below k (x / 2) (y / 2) z o (omega (arith, two, h)) (omega (arith, two, l)),
      )
