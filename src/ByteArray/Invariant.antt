-- ===== src/ByteArray/Invariant.antt =====
-- Well-formed states of myhttp/bytearray.h, and the byte file that such a state stands for.
use http_practice.Prelude.{
  ℕ, zero, suc, ◌+◌, ◌*◌, ◌≤◌, ◌<◌, ◌≡◌, refl, sym, ap, ◌∙◌, List, [], ◌∷◌, ◌++◌, Option, none,
  some, arith, length, take, drop, replicate, length-replicate, length-take,
}
use http_practice.ByteArray.Store.{ByteArray, Node, new, clear}
use http_practice.ByteArray.Chain.{Blocks, length-flatten}
use mathlib.Core.List.{flatten}

-- `m_cur` stands on the block of the next byte; it is null exactly when the chain is used up.
abbrev pub IsCursor : ℕ → ℕ → ℕ → Option ℕ → Type 0
IsCursor base position capacity none = position ≡ capacity
IsCursor base position capacity (some c) =
    (position < capacity) × (c * base ≤ position) × (position < c * base + base)

pub record IsValid (b : ByteArray) : Type 0 where
  pub positive : 0 < b.base_size
  pub rooted : 0 < length b.root
  pub blocks : Blocks b.base_size b.root
  pub counted : b.capacity ≡ length b.root * b.base_size
  pub read_within : b.position ≤ b.size
  pub within : b.size ≤ b.capacity
  pub cursor : IsCursor b.base_size b.position b.capacity b.cur

-- The bytes written so far, wherever the chain keeps them.
abbrev pub contents : ByteArray → List ℕ
contents b = take b.size (flatten b.root)

-- What an operation that only touches the chain leaves as it was.
pub record SameView (b b' : ByteArray) : Type 0 where
  pub base_size : b'.base_size ≡ b.base_size
  pub position : b'.position ≡ b.position
  pub size : b'.size ≡ b.size
  pub endian : b'.endian ≡ b.endian
  pub contents : take b'.size (flatten b'.root) ≡ take b.size (flatten b.root)

pub length-flatten_root : {b : ByteArray} → IsValid b → length (flatten b.root) ≡ b.capacity
length-flatten_root {b} v = length-flatten b.base_size b.root v.blocks ∙ sym v.counted

pub length-contents : {b : ByteArray} → IsValid b → length (contents b) ≡ b.size
length-contents {b} v =
    omega (arith, length-take b.size (flatten b.root), length-flatten_root v, v.within)

pub Blocks-append :
    (base : ℕ) (xs ys : List Node) → Blocks base xs → Blocks base ys → Blocks base (xs ++ ys)
Blocks-append base [] ys hx hy = hy
Blocks-append base (x ∷ xs) ys hx hy = (hx.0, Blocks-append base xs ys hx.1 hy)

pub Blocks-replicate : (base k : ℕ) (n : Node) → length n ≡ base → Blocks base (replicate k n)
Blocks-replicate base zero n h = tt
Blocks-replicate base (suc k) n h = (h, Blocks-replicate base k n h)

pub Blocks-take : (base k : ℕ) (ns : List Node) → Blocks base ns → Blocks base (take k ns)
Blocks-take base zero ns h = tt
Blocks-take base (suc k) [] h = tt
Blocks-take base (suc k) (n ∷ ns) h = (h.0, Blocks-take base k ns h.1)

pub Blocks-drop : (base k : ℕ) (ns : List Node) → Blocks base ns → Blocks base (drop k ns)
Blocks-drop base zero ns h = h
Blocks-drop base (suc k) [] h = tt
Blocks-drop base (suc k) (n ∷ ns) h = Blocks-drop base k ns h.1

-- A fresh array holds nothing, and so does a cleared one.
pub new-IsValid :
    (blank base : ℕ) → 0 < base → IsValid (new blank base) × (contents (new blank base) ≡ [])
unfolding new
new-IsValid blank base h = (
  record {
    positive = h;
    rooted = omega arith;
    blocks = (length-replicate base blank, tt);
    counted = omega arith;
    read_within = omega arith;
    within = omega arith;
    cursor = omega arith;
  },
  refl,
)

take_one : (base : ℕ) (ns : List Node) → 0 < length ns → length (take 1 ns) ≡ 1
take_one base [] h = absurd (omega arith)
take_one base (n ∷ ns) h = refl

-- clear takes a valid array to a valid one with no contents.
pub clear-IsValid : (b : ByteArray) → IsValid b → IsValid (clear b) × (contents (clear b) ≡ [])
unfolding clear
clear-IsValid b v = (
  record {
    positive = v.positive;
    rooted = omega (arith, take_one b.base_size b.root v.rooted);
    blocks = Blocks-take b.base_size 1 b.root v.blocks;
    counted = omega (
      arith,
      take_one b.base_size b.root v.rooted,
      ap (λ (t : ℕ). t * b.base_size) (take_one b.base_size b.root v.rooted),
    );
    read_within = omega arith;
    within = omega arith;
    cursor = omega (arith, v.positive);
  },
  refl,
)
