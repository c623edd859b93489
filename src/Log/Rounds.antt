-- ===== src/Log/Rounds.antt =====
-- The rounds of `LogFormatter::init` of myhttp/log.cpp, and the sign that should stand for itself.
use http_practice.Prelude.{
  ℕ, zero, suc, ◌≤◌, ◌≡◌, refl, ap, Bool, true, false, not, ◌||◌, List, [], ◌∷◌, ◌++◌, arith, ◌==◌,
  if◌then◌else◌, length, length-append, inl, inr, Bool-cases,
}
use http_practice.Prelude.Text.{Bytes, bytes}
use http_practice.Log.Pattern.{
  Part, text, directive, is_alpha, Found, scanned, unclosed, in_name, in_format, flushed, Parsed,
  behind, with_error, at_directive, parse, any_unknown, new_formatter,
}
use http_practice.Log.Printing.{is_literal, parse-literal}

-- What follows a directive is no longer than this.
abbrev IsWithin : ℕ → Found → Type 0
IsWithin n (scanned str fmt rest) = length rest ≤ n
IsWithin n unclosed = Unit

IsWithin-weaken : (n m : ℕ) (r : Found) → n ≤ m → IsWithin n r → IsWithin m r
IsWithin-weaken n m (scanned str fmt rest) h k = omega (arith, h, k)
IsWithin-weaken n m unclosed h k = tt

in_format-IsWithin : (str fmt s : Bytes) → IsWithin (length s) (in_format str fmt s)
in_format-IsWithin str fmt [] = tt
in_format-IsWithin str fmt (c ∷ s) = elim (Bool-cases (c == b'}')) [
  | inl x ↦ rw x (omega arith)
  | inr x ↦ rw x (
      IsWithin-weaken (length s) (suc (length s)) (in_format str (fmt ++ c ∷ []) s) (omega arith)
        (in_format-IsWithin str (fmt ++ c ∷ []) s))
]

IsWithin-if :
    (n : ℕ) (b : Bool) (r q : Found) → IsWithin n r → IsWithin n q → IsWithin n (if b then r else q)
IsWithin-if n true r q h k = h
IsWithin-if n false r q h k = k

in_name-IsWithin : (str s : Bytes) → IsWithin (length s) (in_name str s)
in_name-IsWithin str [] = omega arith
in_name-IsWithin str (c ∷ s) =
    IsWithin-if (suc (length s)) (not (is_alpha c || (c == b'{') || (c == b'}'))) _ _ (omega arith)
      (IsWithin-if (suc (length s)) (c == b'{') _ _
        (IsWithin-weaken (length s) (suc (length s)) (in_format str [] s) (omega arith)
          (in_format-IsWithin str [] s))
        (IsWithin-weaken (length s) (suc (length s)) (in_name (str ++ c ∷ []) s) (omega arith)
          (in_name-IsWithin (str ++ c ∷ []) s)))

-- Rounds that agree on what is no longer agree on a directive.
at_directive-agree :
    (f g : Bytes → Bytes → Parsed) (nstr s : Bytes) (r : Found)
    → ((u t : Bytes) → length t ≤ length s → f u t ≡ g u t)
    → IsWithin (length s) r
    → at_directive f nstr s r ≡ at_directive g nstr s r
at_directive-agree f g nstr s (scanned str fmt rest) e h =
    ap (behind (flushed nstr ++ directive str fmt ∷ [])) (e [] rest h)
at_directive-agree f g nstr s unclosed e h =
    ap (with_error (text (bytes "<<pattern_error>>") ∷ [])) (e nstr s (omega arith))

-- The rounds of the outer loop: more fuel than the pattern has bytes changes nothing.
parse-enough :
    (n m : ℕ) (nstr s : Bytes) → length s ≤ n → length s ≤ m → parse n nstr s ≡ parse m nstr s
unfolding parse
parse-enough zero zero nstr s h k = refl
parse-enough zero (suc m) nstr [] h k = refl
parse-enough (suc n) zero nstr [] h k = refl
parse-enough (suc n) (suc m) nstr [] h k = refl
parse-enough zero m nstr (c ∷ s) h k = absurd (omega (arith, h))
parse-enough (suc n) zero nstr (c ∷ s) h k = absurd (omega (arith, k))
parse-enough (suc n) (suc m) nstr (c ∷ s) h k =
    let agree : ((u t : Bytes) → length t ≤ length s → parse n u t ≡ parse m u t) =
      λ u t l. parse-enough n m u t (omega (arith, h, l)) (omega (arith, k, l)) in
    rw
      (
        agree (nstr ++ c ∷ []) s (omega arith),
        agree (nstr ++ b'%' ∷ []) s (omega arith),
        at_directive-agree (parse n) (parse m) nstr s (in_name [] s) agree (in_name-IsWithin [] s),
      )
      refl

any_unknown-append :
    (ps qs : List Part) → any_unknown (ps ++ qs) ≡ (any_unknown ps || any_unknown qs)
any_unknown-append [] qs = refl
any_unknown-append (p ∷ ps) qs = ground (arith, any_unknown-append ps qs)

-- A pattern that ends in a doubled percent sign, behind text with none, is in error: the
-- second sign is read again, as a directive with no name.
pub new_formatter-trailing_percent :
    (s : Bytes) → is_literal s ≡ true → (new_formatter (s ++ bytes "%%")).is_error ≡ true
unfolding new_formatter
new_formatter-trailing_percent s h =
    rw
      (parse-literal (length (s ++ bytes "%%")) 2 [] s (bytes "%%") (length-append s (bytes "%%"))
        h)
      (ground (
        arith,
        any_unknown-append (flushed (s ++ b'%' ∷ []) ++ directive [] [] ∷ []) [],
        any_unknown-append (flushed (s ++ b'%' ∷ [])) (directive [] [] ∷ []),
      ))
