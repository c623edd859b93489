-- ===== src/Prelude/Text.antt =====
-- Strings as their bytes: C++ `std::string` with `==` and `<`, and what the C library does with a
-- `const char*`, which ends at the first zero byte.
use Prim.Native.Char.{code}
use Prim.Native.String.{String}
use http_practice.Prelude.{
  ℕ, zero, suc, ◌+◌, ◌/◌, ◌%◌, ◌≡◌, refl, Bool, true, false, not, ◌&&◌, ◌||◌, List, [], ◌∷◌, ◌++◌,
  map, arith, ltb, leb, ◌==◌, if◌then◌else◌,
}

abbrev pub Bytes : Type 0
Bytes = List ℕ

-- The bytes of an ASCII literal.
abbrev pub bytes : String → Bytes
bytes String.[] = []
bytes (String.◌∷◌ c s) = code c ∷ bytes s

-- `==` on `std::string`s.
abbrev pub eq_bytes : Bytes → Bytes → Bool
eq_bytes [] [] = true
eq_bytes [] (y ∷ ys) = false
eq_bytes (x ∷ xs) [] = false
eq_bytes (x ∷ xs) (y ∷ ys) = (x == y) && eq_bytes xs ys

pub eq_bytes_refl : (u : Bytes) → eq_bytes u u ≡ true
eq_bytes_refl [] = refl
eq_bytes_refl (x ∷ xs) = ground (arith, eq_bytes_refl xs)

pub eq_bytes_eq : (u v : Bytes) → eq_bytes u v ≡ true → u ≡ v
eq_bytes_eq [] [] h = refl
eq_bytes_eq [] (y ∷ ys) h = absurd (ground (arith, h))
eq_bytes_eq (x ∷ xs) [] h = absurd (ground (arith, h))
eq_bytes_eq (x ∷ xs) (y ∷ ys) h =
    let e : x ≡ y = ground arith in let f = eq_bytes_eq xs ys (ground arith) in λ i. e i ∷ f i

-- `<` on `std::string`s: the first byte that differs decides, a proper prefix is less.
abbrev pub less_bytes : Bytes → Bytes → Bool
less_bytes xs [] = false
less_bytes [] (y ∷ ys) = true
less_bytes (x ∷ xs) (y ∷ ys) = ltb x y || ((x == y) && less_bytes xs ys)

-- What a `const char*` is read as.
abbrev pub c_str : Bytes → Bytes
c_str [] = []
c_str (x ∷ xs) = if x == 0 then [] else x ∷ c_str xs

-- `tolower` in the C locale.
abbrev pub to_lower : ℕ → ℕ
to_lower c = if leb b'A' c && leb c b'Z' then c + 32 else c

-- What `strcasecmp` compares of a string.
abbrev pub folded : Bytes → Bytes
folded s = map to_lower (c_str s)

-- `strcasecmp(a, b) == 0` and `strcasecmp(a, b) < 0`.
abbrev pub eq_nocase : Bytes → Bytes → Bool
eq_nocase a b = eq_bytes (folded a) (folded b)

abbrev pub less_nocase : Bytes → Bytes → Bool
less_nocase a b = less_bytes (folded a) (folded b)

-- `strncmp(p, s, strlen(p)) == 0` for a `p` with no zero byte.
abbrev pub is_prefix : Bytes → Bytes → Bool
is_prefix [] s = true
is_prefix (x ∷ p) [] = false
is_prefix (x ∷ p) (y ∷ s) = (x == y) && is_prefix p s

pub less_bytes_irrefl : (a : Bytes) → less_bytes a a ≡ false
less_bytes_irrefl [] = refl
less_bytes_irrefl (x ∷ xs) = ground (arith, less_bytes_irrefl xs)

pub less_bytes_trans :
    (a b c : Bytes) → less_bytes a b ≡ true → less_bytes b c ≡ true → less_bytes a c ≡ true
less_bytes_trans a [] c h k = absurd (ground (arith, h))
less_bytes_trans a (y ∷ b) [] h k = absurd (ground (arith, k))
less_bytes_trans [] (y ∷ b) (z ∷ c) h k = refl
less_bytes_trans (x ∷ a) (y ∷ b) (z ∷ c) h k = ground (arith, h, k, less_bytes_trans a b c)

-- Of two strings neither of which is less, both are the same.
pub less_bytes_antisym : (a b : Bytes) → less_bytes a b ≡ false → less_bytes b a ≡ false → a ≡ b
less_bytes_antisym [] [] h k = refl
less_bytes_antisym [] (y ∷ b) h k = absurd (ground (arith, h))
less_bytes_antisym (x ∷ a) [] h k = absurd (ground (arith, k))
less_bytes_antisym (x ∷ a) (y ∷ b) h k =
    let e : x ≡ y = ground arith in
    let f = less_bytes_antisym a b (ground arith) (ground arith) in λ i. e i ∷ f i

-- No CR in the text.
abbrev pub is_line : Bytes → Bool
is_line [] = true
is_line (x ∷ s) = not (x == b'\r') && is_line s

abbrev pub is_empty : Bytes → Bool
is_empty [] = true
is_empty (x ∷ xs) = false

-- Text that can stand on a line of its own.
abbrev pub IsHeadLine : Bytes → Type 0
IsHeadLine l = (is_line l ≡ true) × (is_empty l ≡ false)

pub is_line-append : (a b : Bytes) → is_line (a ++ b) ≡ (is_line a && is_line b)
is_line-append [] b = refl
is_line-append (x ∷ a) b = ground (arith, is_line-append a b)

-- A number in decimal digits, on fuel: `10 ^ fuel` bounds the numbers it prints.
abbrev pub digits : ℕ → ℕ → Bytes → Bytes
digits zero n after = after
digits (suc fuel) n after =
    let rest = digits fuel (n / 10) ((b'0' + n % 10) ∷ after) in
    if ltb n 10 then (b'0' + n) ∷ after else rest

-- A `uint32_t` or `size_t` written to a stream: 20 digits are enough for 64 bits.
abbrev pub decimal : ℕ → Bytes
decimal n = digits 20 n []

digits-is_line :
    (fuel n : ℕ) (after : Bytes) → is_line after ≡ true → is_line (digits fuel n after) ≡ true
digits-is_line zero n after h = h
digits-is_line (suc fuel) n after h =
    ground (arith, h, digits-is_line fuel (n / 10) ((b'0' + n % 10) ∷ after))

pub decimal-is_line : (n : ℕ) → is_line (decimal n) ≡ true
decimal-is_line n = digits-is_line 20 n [] refl
