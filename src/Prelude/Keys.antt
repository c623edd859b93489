-- ===== src/Prelude/Keys.antt =====
-- The orders of the maps: `std::less` on strings, and one that ignores case.
use http_practice.Prelude.{◌≡◌, refl, ap, [], ◌∷◌, arith}
use http_practice.Prelude.Text.{
  Bytes, less_bytes, eq_bytes, folded, less_bytes_irrefl, less_bytes_trans, less_bytes_antisym,
}
use http_practice.Prelude.SortedMap.{KeyOrder, same}

-- Strings compared by what `f` reads of them.
abbrev lexical : (Bytes → Bytes) → KeyOrder Bytes
lexical f = record {
  less = λ a b. less_bytes (f a) (f b);
  irrefl = λ a. less_bytes_irrefl (f a);
  trans = λ a b c. less_bytes_trans (f a) (f b) (f c);
  alike = λ a b h k c.
      let e = less_bytes_antisym (f a) (f b) h k in
      (ap (λ t. less_bytes t (f c)) e, ap (less_bytes (f c)) e);
}

abbrev pub by_bytes : KeyOrder Bytes
by_bytes = lexical (λ a. a)

abbrev pub by_nocase : KeyOrder Bytes
by_nocase = lexical folded

-- Keys of `std::less` count as one if they are equal.
pub same-eq_bytes : (a b : Bytes) → same less_bytes a b ≡ eq_bytes a b
same-eq_bytes [] [] = refl
same-eq_bytes [] (y ∷ b) = refl
same-eq_bytes (x ∷ a) [] = refl
same-eq_bytes (x ∷ a) (y ∷ b) = ground (arith, same-eq_bytes a b)
