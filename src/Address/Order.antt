-- ===== src/Address/Order.antt =====
-- `Address::operator<` and `==` of myhttp/address.cpp, on what `getAddr` and `getAddrLen` give: the
-- bytes of the address.
use http_practice.Prelude.{
  ℕ, suc, ◌≡◌, refl, Bool, true, false, ◌&&◌, [], ◌∷◌, arith, ltb, ◌==◌, if◌then◌else◌, length,
}
use http_practice.Prelude.Text.{Bytes, eq_bytes, less_bytes}

-- The sign of what `memcmp` gives.
pub data Sign : Type 0 where
  negative none_of_both positive : Sign

abbrev pub memcmp : Bytes → Bytes → ℕ → Sign
memcmp (x ∷ a) (y ∷ b) (suc n) =
    let rest = memcmp a b n in if ltb x y then negative else if ltb y x then positive else rest
memcmp _ _ _ = none_of_both

abbrev minimum : ℕ → ℕ → ℕ
minimum a b = if ltb b a then b else a

abbrev by_sign : Sign → Bool → Bool
by_sign negative shorter = true
by_sign positive shorter = false
by_sign none_of_both shorter = shorter

unfoldable pub less_address : Bytes → Bytes → Bool
less_address a b = by_sign (memcmp a b (minimum (length a) (length b))) (ltb (length a) (length b))

abbrev is_equal : Sign → Bool
is_equal none_of_both = true
is_equal _ = false

unfoldable pub eq_address : Bytes → Bytes → Bool
eq_address a b = (length a == length b) && is_equal (memcmp a b (length a))

minimum-suc : (a b : ℕ) → minimum (suc a) (suc b) ≡ suc (minimum a b)
minimum-suc a b = ground arith

-- `operator<` is the order of the bytes.
less_address-less_bytes : (a b : Bytes) → less_address a b ≡ less_bytes a b
unfolding less_address
less_address-less_bytes [] [] = refl
less_address-less_bytes [] (y ∷ b) = ground arith
less_address-less_bytes (x ∷ a) [] = ground arith
less_address-less_bytes (x ∷ a) (y ∷ b) =
    rw (minimum-suc (length a) (length b)) (ground (arith, less_address-less_bytes a b))

-- `operator==` is the equality of the bytes.
eq_address-eq_bytes : (a b : Bytes) → eq_address a b ≡ eq_bytes a b
unfolding eq_address
eq_address-eq_bytes [] [] = refl
eq_address-eq_bytes [] (y ∷ b) = ground arith
eq_address-eq_bytes (x ∷ a) [] = ground arith
eq_address-eq_bytes (x ∷ a) (y ∷ b) = ground (arith, eq_address-eq_bytes a b)

-- operator< compares addresses as the strings of their bytes are ordered, and operator== tests
-- that these are equal.
pub address_order :
    (a b : Bytes) → (less_address a b ≡ less_bytes a b) × (eq_address a b ≡ eq_bytes a b)
address_order a b = (less_address-less_bytes a b, eq_address-eq_bytes a b)
