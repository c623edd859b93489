-- ===== src/Prelude/Splice.antt =====
-- Overwriting a stretch of a list, and cutting lists in two.
use http_practice.Prelude.{
  ℕ, zero, suc, ◌+◌, ◌-◌, ◌≤◌, ◌≡◌, refl, ap, sym, List, [], ◌∷◌, ◌++◌, arith, length, take, drop,
  length-append, length-take, length-drop, take-append-drop,
}
use mathlib.Core.List.{append-nil, append_assoc}

module _ {ℓ} {A : Type ℓ} where
  -- `memcpy` of `ys` over the cells of `xs` from `p` on.
  unfoldable pub splice : List A → ℕ → List A → List A
  splice xs p ys = take p xs ++ (ys ++ drop (p + length ys) xs)

  abbrev pub All {κ} : (A → Type κ) → List A → Type κ
  All P [] = Unit {κ}
  All P (x ∷ xs) = P x × All P xs

module _ {ℓ} {A : Type ℓ} where
  pub take_all : (n : ℕ) (xs : List A) → length xs ≤ n → take n xs ≡ xs
  take_all zero [] h = refl
  take_all zero (x ∷ xs) h = absurd (omega arith)
  take_all (suc n) [] h = refl
  take_all (suc n) (x ∷ xs) h = ap (◌∷◌ x) (take_all n xs (omega arith))

  pub drop_all : (n : ℕ) (xs : List A) → length xs ≤ n → drop n xs ≡ []
  drop_all zero [] h = refl
  drop_all zero (x ∷ xs) h = absurd (omega arith)
  drop_all (suc n) [] h = refl
  drop_all (suc n) (x ∷ xs) h = drop_all n xs (omega arith)

  pub take-append :
      (n : ℕ) (xs ys : List A) → take n (xs ++ ys) ≡ take n xs ++ take (n - length xs) ys
  take-append zero [] ys = refl
  take-append zero (x ∷ xs) ys = let e : 0 - suc (length xs) ≡ 0 = omega arith in rw e
  take-append (suc n) [] ys = let e : suc n - 0 ≡ suc n = omega arith in rw e
  take-append (suc n) (x ∷ xs) ys =
      let e : suc n - suc (length xs) ≡ n - length xs = omega arith in
      rw e (ap (◌∷◌ x) (take-append n xs ys))

  pub drop-append :
      (n : ℕ) (xs ys : List A) → drop n (xs ++ ys) ≡ drop n xs ++ drop (n - length xs) ys
  drop-append zero [] ys = refl
  drop-append zero (x ∷ xs) ys = let e : 0 - suc (length xs) ≡ 0 = omega arith in rw e
  drop-append (suc n) [] ys = let e : suc n - 0 ≡ suc n = omega arith in rw e
  drop-append (suc n) (x ∷ xs) ys =
      let e : suc n - suc (length xs) ≡ n - length xs = omega arith in rw e (drop-append n xs ys)

  pub drop-drop : (m n : ℕ) (xs : List A) → drop m (drop n xs) ≡ drop (n + m) xs
  drop-drop m zero xs = let e : 0 + m ≡ m = omega arith in rw e
  drop-drop zero (suc n) [] = let e : suc n + 0 ≡ suc n = omega arith in rw e
  drop-drop (suc m) (suc n) [] = let e : suc n + suc m ≡ suc (n + suc m) = omega arith in rw e
  drop-drop m (suc n) (x ∷ xs) =
      let e : suc n + m ≡ suc (n + m) = omega arith in rw e (drop-drop m n xs)

  pub take-drop : (m n : ℕ) (xs : List A) → take m (drop n xs) ≡ drop n (take (n + m) xs)
  take-drop m zero xs = let e : 0 + m ≡ m = omega arith in rw e
  take-drop zero (suc n) [] = let e : suc n + 0 ≡ suc n = omega arith in rw e
  take-drop (suc m) (suc n) [] = let e : suc n + suc m ≡ suc (n + suc m) = omega arith in rw e
  take-drop m (suc n) (x ∷ xs) =
      let e : suc n + m ≡ suc (n + m) = omega arith in rw e (take-drop m n xs)

  pub take-take : (m n : ℕ) (xs : List A) → m ≤ n → take m (take n xs) ≡ take m xs
  take-take zero n xs h = refl
  take-take (suc m) zero xs h = absurd (omega arith)
  take-take (suc m) (suc n) [] h = refl
  take-take (suc m) (suc n) (x ∷ xs) h = ap (◌∷◌ x) (take-take m n xs (omega arith))

module _ {ℓ} {A : Type ℓ} where
  pub length-splice :
      (xs : List A) (p : ℕ) (ys : List A)
      → p + length ys ≤ length xs
      → length (splice xs p ys) ≡ length xs
  unfolding splice
  length-splice xs p ys h = simp (length-append, length-take, length-drop) (omega arith)

  -- A write that stays in the first part, and one that runs over its end.
  pub splice-append_left :
      (xs zs : List A) (p : ℕ) (ys : List A)
      → p + length ys ≤ length xs
      → splice (xs ++ zs) p ys ≡ splice xs p ys ++ zs
  unfolding splice
  splice-append_left xs zs p ys h =
      let e : p - length xs ≡ 0 = omega arith in
      let f : p + length ys - length xs ≡ 0 = omega arith in
      simp (take-append, drop-append, e, f, append_assoc, append-nil)

  pub splice-append_across :
      (xs zs : List A) (p : ℕ) (ys : List A)
      → p ≤ length xs
      → length xs ≤ p + length ys
      → splice (xs ++ zs) p ys
        ≡ splice xs p (take (length xs - p) ys) ++ splice zs 0 (drop (length xs - p) ys)
  unfolding splice
  splice-append_across xs zs p ys h k =
      let a : p - length xs ≡ 0 = omega arith in
      let b : p + length (take (length xs - p) ys) ≡ length xs =
        omega (arith, length-take (length xs - p) ys) in
      let c : 0 + length (drop (length xs - p) ys) ≡ p + length ys - length xs =
        omega (arith, length-drop (length xs - p) ys) in
      rw (b, c)
        (rw (take-append p xs zs, drop-append (p + length ys) xs zs, a)
          (rw (drop_all (p + length ys) xs k, drop_all (length xs) xs (omega arith))
            (simp (append-nil, append_assoc)
              (ap (◌++◌ (take p xs)) (
                rw (
                  ← append_assoc (take (length xs - p) ys) (drop (length xs - p) ys) _,
                  take-append-drop (length xs - p) ys,
                ))))))

  -- A write behind a first part leaves it alone.
  pub splice-append_right :
      (xs zs : List A) (q p : ℕ) (ys : List A)
      → q ≡ length xs + p
      → splice (xs ++ zs) q ys ≡ xs ++ splice zs p ys
  unfolding splice
  splice-append_right xs zs q p ys e =
      let a : q - length xs ≡ p = omega arith in
      let b : q + length ys - length xs ≡ p + length ys = omega arith in
      rw (take-append q xs zs, drop-append (q + length ys) xs zs, a, b)
        (rw (take_all q xs (omega arith), drop_all (q + length ys) xs (omega arith))
          (simp append_assoc))

  take_nil : (n : ℕ) → take {A = A} n [] ≡ []
  take_nil zero = refl
  take_nil (suc n) = refl

  pub drop-take : (m s : ℕ) (xs : List A) → drop m (take s xs) ≡ take (s - m) (drop m xs)
  drop-take zero s xs = let e : s - 0 ≡ s = omega arith in rw e
  drop-take (suc m) zero xs = let e : 0 - suc m ≡ 0 = omega arith in rw e
  drop-take (suc m) (suc s) [] = sym (take_nil (suc s - suc m))
  drop-take (suc m) (suc s) (x ∷ xs) =
      let e : suc s - suc m ≡ s - m = omega arith in rw e (drop-take m s xs)

  -- A write seen through the first `s` cells, which it may lengthen.
  pub take-splice :
      (s s' : ℕ) (xs : List A) (p : ℕ) (ys : List A)
      → p ≤ s
      → p + length ys ≤ s'
      → s' - (p + length ys) ≡ s - (p + length ys)
      → s ≤ length xs
      → take s' (splice xs p ys) ≡ splice (take s xs) p ys
  unfolding splice
  take-splice s s' xs p ys h k e w =
      let a : length (take p xs) ≡ p = omega (arith, length-take p xs) in
      let b : s' - p - length ys ≡ s - (p + length ys) = omega arith in
      rw (
        take-append s' (take p xs) _,
        a,
        take-append (s' - p) ys _,
        b,
        take_all s' (take p xs) (omega arith),
        take_all (s' - p) ys (omega arith),
        take-take p s xs h,
        drop-take (p + length ys) s xs,
      )

  pub splice-nil : (xs : List A) (p : ℕ) → splice xs p [] ≡ xs
  unfolding splice
  splice-nil xs p = let e : p + 0 ≡ p = omega arith in rw e (take-append-drop p xs)

  -- What stands behind the position after a write there.
  pub drop-splice :
      (xs : List A) (p : ℕ) (ys : List A)
      → p ≤ length xs
      → drop p (splice xs p ys) ≡ ys ++ drop (p + length ys) xs
  unfolding splice
  drop-splice xs p ys h =
      let width : length (take p xs) ≡ p = omega (arith, length-take p xs) in
      let zero : p - p ≡ 0 = omega arith in
      rw (drop-append p (take p xs) _, width, zero, drop_all p (take p xs) (omega arith)) refl

  -- Two writes one behind the other are one.
  pub splice-splice :
      (xs : List A) (p : ℕ) (ys zs : List A)
      → p ≤ length xs
      → splice (splice xs p ys) (p + length ys) zs ≡ splice xs p (ys ++ zs)
  unfolding splice
  splice-splice xs p ys zs h =
      let width : length (take p xs) ≡ p = omega (arith, length-take p xs) in
      let over : p + length ys - p ≡ length ys = omega arith in
      let over' : p + length ys + length zs - p ≡ length ys + length zs = omega arith in
      let past : length ys + length zs - length ys ≡ length zs = omega arith in
      let zero : length ys - length ys ≡ 0 = omega arith in
      let sum : p + length (ys ++ zs) ≡ p + length ys + length zs =
        omega (arith, length-append ys zs) in
      rw
        (
          take-append (p + length ys) (take p xs) _,
          drop-append (p + length ys + length zs) (take p xs) _,
          width,
          over,
          over',
        )
        (rw
          (
            take-append (length ys) ys _,
            drop-append (length ys + length zs) ys _,
            zero,
            past,
            take_all (p + length ys) (take p xs) (omega arith),
            drop_all (p + length ys + length zs) (take p xs) (omega arith),
            take_all (length ys) ys (omega arith),
            drop_all (length ys + length zs) ys (omega arith),
          )
          (rw sum (simp (append-nil, append_assoc, drop-drop))))
