-- ===== src/Timer/Sorted.antt =====
-- The ordered set of timers of myhttp/timer.cpp: what its operations keep and which elements are
-- in it.
use http_practice.Prelude.{
  ℕ, ◌≡◌, refl, Bool, true, false, ◌&&◌, ◌||◌, not, List, [], ◌∷◌, arith, ◌==◌, if◌then◌else◌,
  Bool-cases, inl, inr,
}
use http_practice.Prelude.Splice.{All}
use http_practice.Timer.Order.{Heap, comparator, less, insert, equivalent, found, erase}

abbrev pub elem : ℕ → List ℕ → Bool
elem a [] = false
elem a (x ∷ xs) = if a == x then true else elem a xs

abbrev pub Less : Heap → ℕ → ℕ → Type 0
Less heap a b = less heap a b ≡ true

-- Each element comes before all that follow it.
abbrev pub Sorted : Heap → List ℕ → Type 0
Sorted heap [] = Unit {0}
Sorted heap (x ∷ xs) = All (Less heap x) xs × Sorted heap xs

pub less_irrefl : (heap : Heap) (a : ℕ) → less heap a a ≡ false
unfolding comparator
less_irrefl heap a = ground arith

pub less_asym : (heap : Heap) (a b : ℕ) → Less heap a b → less heap b a ≡ false
unfolding comparator
less_asym heap a b h = ground arith

pub Less-trans : (heap : Heap) (a b c : ℕ) → Less heap a b → Less heap b c → Less heap a c
unfolding comparator
Less-trans heap a b c h k = ground arith

pub less_total : (heap : Heap) (a b : ℕ) → less heap a b ≡ false → less heap b a ≡ false → a ≡ b
unfolding comparator
less_total heap a b h k = ground arith

-- The comparator takes no two timers for the same.
pub equivalent-same : (heap : Heap) (a b : ℕ) → equivalent heap a b ≡ (a == b)
unfolding comparator
equivalent-same heap a b = ground arith

module _ {ℓ} {A : Type ℓ} where
  abbrev pub filter : (A → Bool) → List A → List A
  filter f [] = []
  filter f (x ∷ xs) = if f x then x ∷ filter f xs else filter f xs

pub elem-All {κ} : (P : ℕ → Type κ) (a : ℕ) (s : List ℕ) → All P s → elem a s ≡ true → P a
elem-All P a [] h e = absurd (ground arith)
elem-All P a (x ∷ xs) (h, hs) e = elim (Bool-cases (a == x)) [
  | inl same ↦ let eq : a ≡ x = ground arith in rw eq h
  | inr other ↦ elem-All P a xs hs (ground arith)
]

-- What holds of every element of the list holds all along it.
pub All-of {κ} : {P : ℕ → Type κ} (s : List ℕ) → ((b : ℕ) → elem b s ≡ true → P b) → All P s
All-of [] f = tt
All-of (x ∷ xs) f = (f x (ground arith), All-of xs (λ b h. f b (ground arith)))

pub elem-filter : (f : ℕ → Bool) (b : ℕ) (s : List ℕ) → elem b (filter f s) ≡ (elem b s && f b)
elem-filter f b [] = refl
elem-filter f b (x ∷ xs) = elim (Bool-cases (b == x)) [
  | inl same ↦ let eq : x ≡ b = ground arith in ground (arith, elem-filter f b xs)
  | inr other ↦ ground (arith, elem-filter f b xs)
]

pub insert-elem :
    (heap : Heap) (a b : ℕ) (s : List ℕ) → elem b (insert heap a s) ≡ ((b == a) || elem b s)
insert-elem heap a b [] = ground arith
insert-elem heap a b (x ∷ xs) = ground (arith, insert-elem heap a b xs, less_total heap a x)

pub found-elem : (heap : Heap) (a : ℕ) (s : List ℕ) → found heap a s ≡ elem a s
found-elem heap a [] = refl
found-elem heap a (x ∷ xs) = rw (equivalent-same heap a x, found-elem heap a xs)

insert-All {κ} :
    (P : ℕ → Type κ) (heap : Heap) (a : ℕ) (s : List ℕ) → P a → All P s → All P (insert heap a s)
insert-All P heap a s p h = All-of (insert heap a s) (λ b e. elim (Bool-cases (b == a)) [
  | inl same ↦ let eq : b ≡ a = ground arith in rw eq p
  | inr other ↦ elem-All P b s h (ground (arith, insert-elem heap a b s))
])

pub All-map {κ μ} :
    {P : ℕ → Type κ} {Q : ℕ → Type μ} (s : List ℕ)
    → ((b : ℕ) → elem b s ≡ true → P b → Q b)
    → All P s
    → All Q s
All-map {P} s f h = All-of s (λ b e. f b e (elem-All P b s h e))

pub insert-Sorted :
    (heap : Heap) (a : ℕ) (s : List ℕ) → Sorted heap s → Sorted heap (insert heap a s)
insert-Sorted heap a [] h = (tt, tt)
insert-Sorted heap a (x ∷ xs) (h, hs) = elim (Bool-cases (less heap a x)) [
  | inl before ↦
      rw before ((before, All-map xs (λ b e k. Less-trans heap a x b before k) h), (h, hs))
  | inr not_before ↦ elim (Bool-cases (less heap x a)) [
    | inl after ↦
        rw (not_before, after)
          (insert-All (Less heap x) heap a xs after h, insert-Sorted heap a xs hs)
    | inr same ↦ rw (not_before, same) (h, hs)
  ]
]

-- The order is asked only about the times of the elements.
pub Sorted-agree :
    (heap heap' : Heap) (s : List ℕ)
    → ((b : ℕ) → elem b s ≡ true → (heap' b).next ≡ (heap b).next)
    → Sorted heap s
    → Sorted heap' s
unfolding comparator
Sorted-agree heap heap' [] e h = tt
Sorted-agree heap heap' (x ∷ xs) e (h, hs) = (
  All-map xs (λ b m k. rw (e x (ground arith), e b (ground arith)) k) h,
  Sorted-agree heap heap' xs (λ b m. e b (ground arith)) hs,
)

-- No element comes twice.
pub Sorted-once : (heap : Heap) (x : ℕ) (xs : List ℕ) → Sorted heap (x ∷ xs) → elem x xs ≡ false
Sorted-once heap x xs (h, hs) = elim (Bool-cases (elem x xs)) [
  | inl twice ↦ absurd (ground (arith, less_irrefl heap x, elem-All (Less heap x) x xs h twice))
  | inr once ↦ once
]

pub erase-elem :
    (heap : Heap) (a b : ℕ) (s : List ℕ)
    → Sorted heap s
    → elem b (erase heap a s) ≡ (elem b s && not (b == a))
erase-elem heap a b [] h = refl
erase-elem heap a b (x ∷ xs) h = elim (Bool-cases (a == x)) [
  | inl same ↦
      let eq : a ≡ x = ground arith in
      let once = Sorted-once heap x xs h in
      rw (equivalent-same heap a x, same, eq)
        (elim (Bool-cases (b == x)) [
          | inl e ↦ let e' : b ≡ x = ground arith in rw (e', once) (ground arith)
          | inr ne ↦ ground arith
        ])
  | inr other ↦ rw (equivalent-same heap a x, other) (ground (arith, erase-elem heap a b xs h.1))
]

pub erase-Sorted : (heap : Heap) (a : ℕ) (s : List ℕ) → Sorted heap s → Sorted heap (erase heap a s)
erase-Sorted heap a [] h = tt
erase-Sorted heap a (x ∷ xs) (h, hs) = elim (Bool-cases (a == x)) [
  | inl same ↦ rw (equivalent-same heap a x, same) hs
  | inr other ↦
      rw (equivalent-same heap a x, other)
        (
          All-of (erase heap a xs)
              (λ b m. elem-All (Less heap x) b xs h (ground (arith, erase-elem heap a b xs hs))),
          erase-Sorted heap a xs hs,
        )
]
