-- ===== src/Prelude/SortedMap.antt =====
-- `std::map`, as the list of its pairs in the order of the keys.
use http_practice.Prelude.{
  ◌≡◌, refl, Bool, true, false, List, [], ◌∷◌, Option, none, some, arith, inl, inr, Bool-cases,
  if◌then◌else◌,
}
use http_practice.Prelude.Splice.{All}

-- A strict order on keys, in which keys that are neither way less count as one key.
pub record KeyOrder {ℓ} (K : Type ℓ) : Type ℓ where
  pub less : K → K → Bool
  pub irrefl : (a : K) → less a a ≡ false
  pub trans : (a b c : K) → less a b ≡ true → less b c ≡ true → less a c ≡ true
  -- Keys that count as one compare alike with every key.
  pub alike :
      (a b : K)
      → less a b ≡ false
      → less b a ≡ false
      → (c : K) → (less a c ≡ less b c) × (less c a ≡ less c b)

abbrev pub SortedMap {ℓ κ} : Type ℓ → Type κ → Type (ℓ ⊔ κ)
SortedMap K V = List (K × V)

module _ {ℓ κ} {K : Type ℓ} {V : Type κ} (less : K → K → Bool) where
  -- `find`, `none` for `end()`.
  abbrev pub find : K → SortedMap K V → Option V
  find k [] = none
  find k (e ∷ m) = if less k e.0 then none else if less e.0 k then find k m else some e.1

  -- `m[k] = v`: an entry of the key keeps its own key.
  abbrev pub assign : K → V → SortedMap K V → SortedMap K V
  assign k v [] = (k, v) ∷ []
  assign k v (e ∷ m) =
      if less k e.0 then (k, v) ∷ e ∷ m else if less e.0 k then e ∷ assign k v m else (e.0, v) ∷ m

  -- `erase` of a key.
  abbrev pub erase : K → SortedMap K V → SortedMap K V
  erase k [] = []
  erase k (e ∷ m) = if less k e.0 then e ∷ m else if less e.0 k then e ∷ erase k m else m

  -- Each key is less than those behind it.
  abbrev pub IsSorted : SortedMap K V → Type (ℓ ⊔ κ)
  IsSorted [] = Unit
  IsSorted (e ∷ m) = All (λ (f : K × V). less e.0 f.0 ≡ true) m × IsSorted m

-- The two keys count as one.
abbrev pub same {ℓ} : {K : Type ℓ} → (K → K → Bool) → K → K → Bool
same less a b = if less a b then false else if less b a then false else true

module _ {ℓ} {K : Type ℓ} (o : KeyOrder K) where
  alike_at :
      (a b c : K)
      → o.less a b ≡ false
      → o.less b a ≡ false
      → (o.less a c ≡ o.less b c) × (o.less c a ≡ o.less c b)
  alike_at a b c g h = o.alike a b g h c

module _ {ℓ κ} {K : Type ℓ} {V : Type κ} (o : KeyOrder K) where
  pub find-assign :
      (k j : K) (v : V) (m : SortedMap K V)
      → find o.less k (assign o.less j v m) ≡ (if same o.less k j then some v else find o.less k m)
  find-assign k j v [] = ground arith
  find-assign k j v (e ∷ m) = ground (
    arith,
    find-assign k j v m,
    o.trans k j e.0,
    o.trans e.0 j k,
    alike_at o k j e.0,
    alike_at o e.0 j k,
  )

  All-assign :
      (a j : K) (v : V) (m : SortedMap K V)
      → All (λ (f : K × V). o.less a f.0 ≡ true) m
      → o.less a j ≡ true
      → All (λ (f : K × V). o.less a f.0 ≡ true) (assign o.less j v m)
  All-assign a j v [] h k = (k, tt)
  All-assign a j v (e ∷ m) (h, hs) k = elim (Bool-cases (o.less j e.0)) [
    | inl x ↦ rw x ((k, (h, hs)))
    | inr x ↦ elim (Bool-cases (o.less e.0 j)) [
      | inl y ↦ rw (x, y) ((h, All-assign a j v m hs k))
      | inr y ↦ rw (x, y) ((h, hs))
    ]
  ]

  below-All :
      (a b : K) (m : SortedMap K V)
      → o.less a b ≡ true
      → All (λ (f : K × V). o.less b f.0 ≡ true) m
      → All (λ (f : K × V). o.less a f.0 ≡ true) m
  below-All a b [] h hs = tt
  below-All a b (e ∷ m) h (k, ks) = (o.trans a b e.0 h k, below-All a b m h ks)

  pub assign-IsSorted :
      (j : K) (v : V) (m : SortedMap K V)
      → IsSorted o.less m
      → IsSorted o.less (assign o.less j v m)
  assign-IsSorted j v [] h = (tt, tt)
  assign-IsSorted j v (e ∷ m) (h, hs) = elim (Bool-cases (o.less j e.0)) [
    | inl x ↦ rw x (((x, below-All j e.0 m x h), (h, hs)))
    | inr x ↦ elim (Bool-cases (o.less e.0 j)) [
      | inl y ↦ rw (x, y) ((All-assign e.0 j v m h y, assign-IsSorted j v m hs))
      | inr y ↦ rw (x, y) ((h, hs))
    ]
  ]

  -- No key of the map counts as one with a key below all of them.
  find-below :
      (k : K) (m : SortedMap K V)
      → All (λ (f : K × V). o.less k f.0 ≡ true) m
      → find o.less k m ≡ none
  find-below k [] h = refl
  find-below k (e ∷ m) (h, hs) = rw h refl

  below_alike-All :
      (a b : K) (m : SortedMap K V)
      → same o.less a b ≡ true
      → All (λ (f : K × V). o.less b f.0 ≡ true) m
      → All (λ (f : K × V). o.less a f.0 ≡ true) m
  below_alike-All a b [] x hs = tt
  below_alike-All a b (e ∷ m) x (h, hs) =
      (ground (arith, x, h, alike_at o a b e.0), below_alike-All a b m x hs)

  find-before :
      (k : K) (e : K × V) (m : SortedMap K V)
      → All (λ (f : K × V). o.less e.0 f.0 ≡ true) m
      → o.less k e.0 ≡ true
      → find o.less k m ≡ none
  find-before k e m h g = find-below k m (below-All k e.0 m g h)

  find-behind :
      (k : K) (e : K × V) (m : SortedMap K V)
      → All (λ (f : K × V). o.less e.0 f.0 ≡ true) m
      → o.less e.0 k ≡ false
      → find o.less k m ≡ none
  find-behind k e m h g = elim (Bool-cases (o.less k e.0)) [
    | inl x ↦ find-below k m (below-All k e.0 m x h)
    | inr x ↦ find-below k m (below_alike-All k e.0 m (ground (arith, g, x)) h)
  ]

  pub find-erase :
      (k j : K) (m : SortedMap K V)
      → IsSorted o.less m
      → find o.less k (erase o.less j m) ≡ (if same o.less k j then none else find o.less k m)
  find-erase k j [] h = ground arith
  find-erase k j (e ∷ m) (h, hs) = ground (
    arith,
    find-erase k j m hs,
    find-behind k e m h,
    find-before k e m h,
    o.trans k j e.0,
    o.trans e.0 j k,
    o.trans j e.0 k,
    alike_at o k j e.0,
    alike_at o e.0 j k,
    alike_at o k e.0 j,
  )

  All-erase :
      (a j : K) (m : SortedMap K V)
      → All (λ (f : K × V). o.less a f.0 ≡ true) m
      → All (λ (f : K × V). o.less a f.0 ≡ true) (erase o.less j m)
  All-erase a j [] h = h
  All-erase a j (e ∷ m) (h, hs) = elim (Bool-cases (o.less j e.0)) [
    | inl x ↦ rw x ((h, hs))
    | inr x ↦ elim (Bool-cases (o.less e.0 j)) [
      | inl y ↦ rw (x, y) ((h, All-erase a j m hs))
      | inr y ↦ rw (x, y) hs
    ]
  ]

  pub erase-IsSorted :
      (j : K) (m : SortedMap K V) → IsSorted o.less m → IsSorted o.less (erase o.less j m)
  erase-IsSorted j [] h = h
  erase-IsSorted j (e ∷ m) (h, hs) = elim (Bool-cases (o.less j e.0)) [
    | inl x ↦ rw x ((h, hs))
    | inr x ↦ elim (Bool-cases (o.less e.0 j)) [
      | inl y ↦ rw (x, y) ((All-erase e.0 j m h, erase-IsSorted j m hs))
      | inr y ↦ rw (x, y) hs
    ]
  ]
