-- ===== src/Prelude/Results.antt =====
-- What a C++ call ends in: a value, or the exception or fault that stops it.
use mathlib.Core.Path.{transport}
use http_practice.Prelude.{ℕ, ◌/◌, ◌%◌, ◌<◌, ◌≡◌, refl, sym, ap, ◌∙◌, arith, ◌==◌, if◌then◌else◌}

-- `out_of_range` is the exception `std::out_of_range`; the others are undefined behaviour.
pub data Fault : Type 0 where
  out_of_range null_pointer division_by_zero out_of_bounds failed_assertion overflow : Fault

pub data Result {ℓ} (A : Type ℓ) : Type ℓ where
  ok : A → Result A
  err : Fault → Result A

infixl 5 ◌>>=◌
abbrev pub ◌>>=◌ {ℓ κ} : {A : Type ℓ} {B : Type κ} → Result A → (A → Result B) → Result B
ok a >>= f = f a
err e >>= f = err e

-- `a / b` and `a % b` on unsigned numbers.
abbrev pub div_checked : ℕ → ℕ → Result ℕ
div_checked a b = if b == 0 then err division_by_zero else ok (a / b)

abbrev pub mod_checked : ℕ → ℕ → Result ℕ
mod_checked a b = if b == 0 then err division_by_zero else ok (a % b)

pub div_checked_pos : (a b : ℕ) → 0 < b → div_checked a b ≡ ok (a / b)
div_checked_pos a b h = ground arith

pub mod_checked_pos : (a b : ℕ) → 0 < b → mod_checked a b ≡ ok (a % b)
mod_checked_pos a b h = ground arith

-- The run ends normally, in a value of which `P` holds.
abbrev pub Returns {ℓ κ} : {A : Type ℓ} → Result A → (A → Type κ) → Type (ℓ ⊔ κ)
Returns {A} r P = (a : A) × (r ≡ ok a) × P a

-- What holds of a run's end if it ends normally.
abbrev pub After {ℓ κ} : {A : Type ℓ} → (A → Type κ) → Result A → Type κ
After P (ok s) = P s
After P (err f) = Unit {κ}

pub After-bind {ℓ κ μ} :
    {A : Type ℓ} {B : Type κ} (P : B → Type μ) (r : Result A) (f : A → Result B)
    → ((a : A) → r ≡ ok a → After P (f a))
    → After P (r >>= f)
After-bind P (ok a) f h = h a refl
After-bind P (err e) f h = tt

pub After-map {ℓ κ μ} :
    {A : Type ℓ} {P : A → Type κ} {Q : A → Type μ} (r : Result A)
    → ((a : A) → P a → Q a)
    → After P r
    → After Q r
After-map (ok a) f h = f a h
After-map (err e) f h = tt

pub After-at {ℓ κ} :
    {A : Type ℓ} (P : A → Type κ) (r : Result A) (s : A) → After P r → r ≡ ok s → P s
After-at P r s h e = transport (ap (After P) e) h

pub bind_assoc {ℓ κ μ} :
    {A : Type ℓ} {B : Type κ} {C : Type μ} (m : Result A) (f : A → Result B) (g : B → Result C)
    → ((m >>= f) >>= g) ≡ (m >>= λ a. f a >>= g)
bind_assoc (ok a) f g = refl
bind_assoc (err e) f g = refl

-- A run of three calls, with one more behind it.
pub bind_then {ℓ κ μ ν} :
    {A : Type ℓ} {B : Type κ} {C : Type μ} {D : Type ν} (m : Result A) (f : A → Result B)
    (g : B → Result C) (d : C → Result D) {c : C}
    → (m >>= λ a. f a >>= g) ≡ ok c
    → (m >>= λ a. f a >>= λ b. g b >>= d) ≡ d c
bind_then (ok a) f g d e = sym (bind_assoc (f a) g d) ∙ ap (λ t. t >>= d) e
bind_then (err x) f g d e = cc

-- Five calls that run, the first two bracketed.
pub five_calls {ℓ} :
    {A B C D E : Type ℓ} (m : Result A) (f : A → Result B) (g : B → Result C) (h : C → Result D)
    (k : D → Result E) (a : A) (b : B) (c : C) (d : D) (e : E)
    → m ≡ ok a
    → f a ≡ ok b
    → g b ≡ ok c
    → h c ≡ ok d
    → k d ≡ ok e
    → ((m >>= f) >>= λ x. g x >>= λ y. h y >>= k) ≡ ok e
five_calls m f g h k a b c d e p q r s t = rw (p, q, r, s) t
