-- ===== src/ByteArray/Iovecs.antt =====
-- The vectors of buffers of myhttp/bytearray.cpp: getReadBuffers, with a position and without, and
-- getWriteBuffers; and toHexString.
use mathlib.Core.List.{append-nil}
use http_practice.Prelude.{
  ℕ, zero, suc, ◌+◌, ◌-◌, ◌/◌, ◌%◌, ◌<◌, ◌≡◌, refl, ap, sym, ◌∙◌, false, ◌&&◌, List, [], ◌∷◌, ◌++◌,
  Option, none, some, arith, ltb, leb, ◌==◌, if◌then◌else◌, length, get_elem?, take, drop,
  Bool-cases, inl, inr,
}
use http_practice.Prelude.Results.{Result, ok, err, null_pointer, ◌>>=◌, mod_checked, div_checked}
use http_practice.ByteArray.Store.{
  ByteArray, Node, get_read_size, node_at, deref, add_capacity, read_chain, read, to_string,
}

-- `iov_base` is an offset into the node of an index.
pub record Iovec : Type 0 where
  pub node : ℕ
  pub offset : ℕ
  pub len : ℕ

-- `cur->size`, where there is a node.
abbrev pub first_size : List Node → ℕ
first_size [] = 0
first_size (n ∷ ns) = length n

-- The loop of the three functions from the node `c`, of which `ncap` bytes are taken to be left.
abbrev pub buffers_on : ℕ → ℕ → ℕ → List Node → ℕ → Result (List Iovec)
buffers_on c npos ncap [] len = err null_pointer
buffers_on c npos ncap (n ∷ ns) len =
    let rest = buffers_on (suc c) 0 (first_size ns) ns (len - ncap) in
    if leb len ncap
    then ok (record { node = c; offset = npos; len = len } ∷ [])
    else (rest >>= λ vs. ok (record { node = c; offset = npos; len = ncap } ∷ vs))

abbrev pub limited : ByteArray → ℕ → ℕ
limited b len = if ltb (get_read_size b) len then get_read_size b else len

-- The buffers, and the number of bytes in them.
unfoldable pub get_read_buffers : ByteArray → ℕ → Result (List Iovec × ℕ)
get_read_buffers b len =
    let size = limited b len in
    if size == 0
    then ok ([], 0)
    else (mod_checked b.position b.base_size >>= λ npos. deref b.root b.cur >>= λ at.
        buffers_on at.0 npos (first_size at.1 - npos) at.1 size >>= λ vs. ok (vs, size))

-- The node `count` steps down from the root.
abbrev pub step_down : List Node → ℕ → ℕ → Result (ℕ × List Node)
step_down root c zero = ok (c, root)
step_down [] c (suc k) = err null_pointer
step_down (n ∷ ns) c (suc k) = step_down ns (suc c) k

-- With a position: the walk starts at its node, but the room there is counted by `m_cur->size`.
unfoldable pub get_read_buffers_at : ByteArray → ℕ → ℕ → Result (List Iovec × ℕ)
get_read_buffers_at b len position =
    let size = limited b len in
    if size == 0
    then ok ([], 0)
    else (mod_checked position b.base_size >>= λ npos. div_checked position b.base_size >>= λ steps.
        step_down b.root 0 steps >>= λ from. deref b.root b.cur >>= λ at.
        buffers_on from.0 npos (first_size at.1 - npos) from.1 size >>= λ vs. ok (vs, size))

unfoldable pub get_write_buffers : ByteArray → ℕ → Result (ByteArray × (List Iovec × ℕ))
get_write_buffers b len =
    if len == 0
    then ok (b, ([], 0))
    else (add_capacity b len >>= λ b'. mod_checked b'.position b'.base_size >>= λ npos.
        deref b'.root b'.cur >>= λ at.
        buffers_on at.0 npos (first_size at.1 - npos) at.1 len >>= λ vs. ok (b', (vs, len)))

-- The bytes that the buffers hold.
abbrev pub buffer_bytes : List Node → Iovec → List ℕ
buffer_bytes root v = elim (get_elem? root v.node) [
  | none ↦ []
  | some n ↦ take v.len (drop v.offset n)
]

abbrev pub gathered : List Node → List Iovec → List ℕ
gathered root [] = []
gathered root (v ∷ vs) = buffer_bytes root v ++ gathered root vs

abbrev pub hex_digit : ℕ → ℕ
hex_digit d = if ltb d 10 then b'0' + d else b'a' + (d - 10)

-- The loop of toHexString from the byte of index `i`.
abbrev pub hex_from : ℕ → List ℕ → List ℕ
hex_from i [] = []
hex_from i (x ∷ xs) =
    let rest = hex_from (suc i) xs in
    (if ltb 0 i && (i % 32 == 0) then b'\n' ∷ [] else [])
    ++ (hex_digit (x / 16) ∷ hex_digit (x % 16) ∷ b' ' ∷ rest)

unfoldable pub to_hex_string : ByteArray → Result (List ℕ)
to_hex_string b = to_string b >>= λ s. ok (hex_from 0 s)

-- The chain from an index on starts with the node of the index.
drop-head :
    (root : List Node) (c : ℕ) (n : Node) (ns : List Node)
    → drop c root ≡ n ∷ ns
    → (get_elem? root c ≡ some n) × (drop (suc c) root ≡ ns)
drop-head [] zero n ns e = absurd (ground (arith, e))
drop-head [] (suc c) n ns e = absurd (ground (arith, e))
drop-head (m ∷ ms) zero n ns e = (ground (arith, e), ground (arith, e))
drop-head (m ∷ ms) (suc c) n ns e = drop-head ms c n ns e

abbrev paired {ℓ κ} : {A : Type ℓ} {B : Type κ} → A → B → Result (A × B)
paired a b = ok (a, b)

gathered_on :
    (root : List Node) (v : Iovec) (r : Result (List Iovec))
    → ((r >>= λ vs. ok (v ∷ vs)) >>= λ vs. ok (gathered root vs))
      ≡ ((r >>= λ vs. ok (gathered root vs)) >>= λ l. ok (buffer_bytes root v ++ l))
gathered_on root v (ok vs) = refl
gathered_on root v (err f) = refl

read_then :
    (bs : List ℕ) (r : Result (List ℕ × ℕ))
    → ((r >>= λ q. ok q.0) >>= λ l. ok (bs ++ l))
      ≡ ((r >>= λ q. paired (bs ++ q.0) (q.1 + 1)) >>= λ q. ok q.0)
read_then bs (ok q) = refl
read_then bs (err f) = refl

gathered-read_chain :
    (root : List Node) (c npos : ℕ) (ns : List Node) (len : ℕ)
    → drop c root ≡ ns
    → (buffers_on c npos (first_size ns - npos) ns len >>= λ vs. ok (gathered root vs))
      ≡ (read_chain npos ns len >>= λ r. ok r.0)
unfolding read_chain
gathered-read_chain root c npos [] len e = refl
gathered-read_chain root c npos (n ∷ ns) len e =
    let (at, next) = drop-head root c n ns e in
    let ncap = length n - npos in
    elim (Bool-cases (leb len ncap)) [
      | inl x ↦ rw (x, buffer_bytes, at) (ap ok (append-nil (take len (drop npos n))))
      | inr x ↦
          let same : first_size ns - 0 ≡ first_size ns = omega arith in
          let deeper = gathered-read_chain root (suc c) 0 ns (len - ncap) next in
          rw x (
            gathered_on root (record { node = c; offset = npos; len = ncap })
              (buffers_on (suc c) 0 (first_size ns) ns (len - ncap))
            ∙ ap
                (λ t.
                  (buffers_on (suc c) 0 t ns (len - ncap) >>= λ vs. ok (gathered root vs)) >>= λ l.
                  ok (buffer_bytes root (record { node = c; offset = npos; len = ncap }) ++ l))
                (sym same)
            ∙ ap
                (λ r. r >>= λ l.
                  ok (buffer_bytes root (record { node = c; offset = npos; len = ncap }) ++ l))
                deeper
            ∙ ap (λ t. (read_chain 0 ns (len - ncap) >>= λ q. ok q.0) >>= λ l. ok (t ++ l))
                (held_at c npos ncap at)
            ∙ read_then (take ncap (drop npos n)) (read_chain 0 ns (len - ncap)))
    ]
  where
    held_at :
        (c' npos' ncap' : ℕ)
        → get_elem? root c' ≡ some n
        → buffer_bytes root (record { node = c'; offset = npos'; len = ncap' })
          ≡ take ncap' (drop npos' n)
    held_at c' npos' ncap' h = rw (buffer_bytes, h) refl

sized :
    (root : List Node) (size : ℕ) (x : Result (List Iovec))
    → ((x >>= λ vs. paired vs size) >>= λ r. ok (gathered root r.0))
      ≡ (x >>= λ vs. ok (gathered root vs))
sized root size (ok vs) = refl
sized root size (err f) = refl

moved_on :
    (f : List ℕ × ℕ → ByteArray) (y : Result (List ℕ × ℕ))
    → ((y >>= λ r. paired r.0 (f r)) >>= λ r. ok r.0) ≡ (y >>= λ r. ok r.0)
moved_on f (ok r) = refl
moved_on f (err e) = refl

from_cursor :
    (root : List Node) (cur : Option ℕ) (m : Result ℕ) (size : ℕ) (f : ℕ → List ℕ × ℕ → ByteArray)
    → ((m >>= λ npos. deref root cur >>= λ at.
          buffers_on at.0 npos (first_size at.1 - npos) at.1 size >>= λ vs. paired vs size)
        >>= λ r. ok (gathered root r.0))
      ≡ ((m >>= λ npos.
            deref root cur >>= λ at. read_chain npos at.1 size >>= λ r. paired r.0 (f at.0 r))
          >>= λ r. ok r.0)
from_cursor root cur (err e) size f = refl
from_cursor root none (ok npos) size f = refl
from_cursor root (some c) (ok npos) size f =
    let ns = drop c root in
    let x = buffers_on c npos (first_size ns - npos) ns size in
    sized root size x
    ∙ gathered-read_chain root c npos ns size refl
    ∙ sym (moved_on (f c) (read_chain npos ns size))

-- getReadBuffers of a positive length, where bytes are left to read, gives buffers that hold
-- exactly the bytes that read of that length, or of all that is left if it is less, would
-- give, and meets the same faults.
pub get_read_buffers-read :
    (b : ByteArray) (len : ℕ)
    → 0 < len
    → 0 < get_read_size b
    → (get_read_buffers b len >>= λ r. ok (gathered b.root r.0))
      ≡ (read b (limited b len) >>= λ r. ok r.0)
unfolding get_read_buffers read
get_read_buffers-read b len h k =
    let some_left : (limited b len == 0) ≡ false = ground (arith, h, k) in
    let within : ltb (get_read_size b) (limited b len) ≡ false = ground arith in
    rw (some_left, within)
      (from_cursor b.root b.cur (mod_checked b.position b.base_size) (limited b len)
        (λ c r. record b { position = b.position + limited b len; cur = node_at b.root (c + r.1) }))
