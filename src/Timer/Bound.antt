-- ===== src/Timer/Bound.antt =====
-- Cutting the ordered set of timers of myhttp/timer.cpp in two at `upper_bound`.
use http_practice.Prelude.{
  ℕ, ◌≡◌, refl, sym, ap, Bool, true, false, not, List, [], ◌∷◌, arith, length, take, drop,
  Bool-cases, inl, inr,
}
use http_practice.Timer.Order.{Heap, less, upper_bound}
use http_practice.Timer.Sorted.{
  elem, Less, Sorted, filter, elem-All, All-of, elem-filter, Less-trans,
}

pub filter_none :
    (f : ℕ → Bool) (s : List ℕ) → ((b : ℕ) → elem b s ≡ true → f b ≡ false) → filter f s ≡ []
filter_none f [] h = refl
filter_none f (x ∷ xs) h = rw (h x (ground arith)) (filter_none f xs (λ b m. h b (ground arith)))

filter_all : (f : ℕ → Bool) (s : List ℕ) → ((b : ℕ) → elem b s ≡ true → f b ≡ true) → filter f s ≡ s
filter_all f [] h = refl
filter_all f (x ∷ xs) h =
    rw (h x (ground arith)) (ap (◌∷◌ x) (filter_all f xs (λ b m. h b (ground arith))))

pub filter_agree :
    (f g : ℕ → Bool) (s : List ℕ)
    → ((b : ℕ) → elem b s ≡ true → f b ≡ g b)
    → filter f s ≡ filter g s
filter_agree f g [] h = refl
filter_agree f g (x ∷ xs) h =
    let rest = filter_agree f g xs (λ b m. h b (ground arith)) in rw (h x (ground arith), rest) refl

pub filter-Sorted :
    (heap : Heap) (f : ℕ → Bool) (s : List ℕ) → Sorted heap s → Sorted heap (filter f s)
filter-Sorted heap f [] h = tt
filter-Sorted heap f (x ∷ xs) (h, hs) = elim (Bool-cases (f x)) [
  | inl keeps ↦ rw keeps (
    All-of (filter f xs)
        (λ b m. elem-All (Less heap x) b xs h (ground (arith, elem-filter f b xs))),
    filter-Sorted heap f xs hs,
  )
  | inr drops ↦ rw drops (filter-Sorted heap f xs hs)
]

-- A list is cut where `f` stops to hold.
abbrev pub CutBy : (ℕ → Bool) → ℕ → List ℕ → Type 0
CutBy f k s = (take k s ≡ filter f s) × (drop k s ≡ filter (λ b. not (f b)) s)

-- The elements before the upper bound are those that `p` does not come before.
pub upper_bound-CutBy :
    (heap : Heap) (p : ℕ) (s : List ℕ)
    → Sorted heap s
    → CutBy (λ b. not (less heap p b)) (upper_bound heap p s) s
upper_bound-CutBy heap p [] h = (refl, refl)
upper_bound-CutBy heap p (x ∷ xs) (h, hs) = elim (Bool-cases (less heap p x)) [
  | inl after ↦
      let all : (b : ℕ) → elem b xs ≡ true → less heap p b ≡ true =
        λ b m. Less-trans heap p x b after (elem-All (Less heap x) b xs h m) in
      rw after (
        sym (filter_none (λ b. not (less heap p b)) xs (λ b m. rw (all b m) refl)),
        ap (◌∷◌ x)
            (sym (filter_all (λ b. not (not (less heap p b))) xs (λ b m. rw (all b m) refl))),
      )
  | inr not_after ↦
      let (front, behind) = upper_bound-CutBy heap p xs hs in
      rw not_after (ap (◌∷◌ x) front, behind)
]

pub whole-CutBy : (s : List ℕ) → CutBy (λ b. true) (length s) s
whole-CutBy [] = (refl, refl)
whole-CutBy (x ∷ xs) = (ap (◌∷◌ x) (whole-CutBy xs).0, (whole-CutBy xs).1)
