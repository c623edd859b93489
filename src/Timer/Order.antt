-- ===== src/Timer/Order.antt =====
-- `Timer` and `Timer::Comparator` of myhttp/timer.cpp, and the `std::set` of timers that it orders.
-- A `Timer::ptr` is the address of a timer in the heap; the set is the list of its elements in
-- order, and the operations on it find an element by the comparator alone, as `std::set` does.
use http_practice.Prelude.{
  ℕ, suc, Bool, true, false, ◌&&◌, not, List, [], ◌∷◌, Option, none, some, ltb, ◌==◌, if◌then◌else◌,
}

-- What a `std::function<void()>` calls: a callback, or `OnTimer` bound to a condition and one.
pub data Callback : Type 0 where
  calls : ℕ → Callback
  on_timer : ℕ → ℕ → Callback

-- The manager's pointer is left out: there is one manager.
pub record Timer : Type 0 where
  pub recurring : Bool
  pub ms : ℕ
  pub next : ℕ
  pub cb : Option Callback

abbrev pub Heap : Type 0
Heap = ℕ → Timer

abbrev pub update : Heap → ℕ → Timer → Heap
update heap a t b = if a == b then t else heap b

unfoldable pub comparator : Heap → Option ℕ → Option ℕ → Bool
comparator heap none none = false
comparator heap none (some r) = true
comparator heap (some l) none = false
comparator heap (some l) (some r) =
    if ltb (heap l).next (heap r).next
    then true
    else if ltb (heap r).next (heap l).next
    then false
    else ltb l r

abbrev pub less : Heap → ℕ → ℕ → Bool
less heap l r = comparator heap (some l) (some r)

-- `insert` keeps the element that is there already.
abbrev pub insert : Heap → ℕ → List ℕ → List ℕ
insert heap a [] = a ∷ []
insert heap a (x ∷ xs) =
    if less heap a x then a ∷ x ∷ xs else if less heap x a then x ∷ insert heap a xs else x ∷ xs

abbrev pub equivalent : Heap → ℕ → ℕ → Bool
equivalent heap a x = not (less heap a x) && not (less heap x a)

-- Whether `find` gives an element and not `end()`.
abbrev pub found : Heap → ℕ → List ℕ → Bool
found heap a [] = false
found heap a (x ∷ xs) = if equivalent heap a x then true else found heap a xs

-- `erase` of what `find` gives.
abbrev pub erase : Heap → ℕ → List ℕ → List ℕ
erase heap a [] = []
erase heap a (x ∷ xs) = if equivalent heap a x then xs else x ∷ erase heap a xs

-- `upper_bound`: the number of elements before the first that comes after `a`.
abbrev pub upper_bound : Heap → ℕ → List ℕ → ℕ
upper_bound heap a [] = 0
upper_bound heap a (x ∷ xs) = if less heap a x then 0 else suc (upper_bound heap a xs)
