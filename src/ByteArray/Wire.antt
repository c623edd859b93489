-- ===== src/ByteArray/Wire.antt =====
-- Fixed-width integers on the wire: `m_endian` alone decides the order of their bytes in
-- myhttp/bytearray.cpp, and a value written comes back on any machine.
use http_practice.Prelude.{
  ℕ, zero, suc, ◌+◌, ◌^◌, ◌<◌, ◌≡◌, refl, ap, ◌∙◌, inl, List, [], ◌∷◌, ◌++◌, arith, if◌then◌else◌,
  ◌/◌, length, drop, length-append,
}
use http_practice.Prelude.Results.{Returns, ◌>>=◌}
use http_practice.ByteArray.Store.{
  ByteArray, Endian, little, big, get_capacity, write, set_position,
}
use http_practice.ByteArray.Invariant.{IsValid, contents}
use http_practice.ByteArray.Growth.{RoundsUp}
use http_practice.ByteArray.Write.{write-Written}
use http_practice.ByteArray.Stream.{rest, Took, read-Took, Written-Rewound}
use http_practice.ByteArray.Fixed.{
  le_bytes, memory, load, byteswap, same_endian, write_fixed, read_fixed, length-le_bytes,
  of_le_bytes-le_bytes, le_bytes-of_le_bytes, IsBytes,
}
use mathlib.Core.List.{reverse, reverse-reverse, reverse-cons}

length-reverse {ℓ} : {A : Type ℓ} (xs : List A) → length (reverse xs) ≡ length xs
length-reverse [] = refl
length-reverse (x ∷ xs) =
    omega
      (arith, ap length (reverse-cons x xs), length-append (reverse xs) (x ∷ []), length-reverse xs)

pub length-memory : (e : Endian) (k v : ℕ) → length (memory e k v) ≡ k
length-memory little k v = length-le_bytes k v
length-memory big k v = length-reverse (le_bytes k v) ∙ length-le_bytes k v

IsBytes-append : (xs ys : List ℕ) → IsBytes xs → IsBytes ys → IsBytes (xs ++ ys)
IsBytes-append [] ys h g = g
IsBytes-append (x ∷ xs) ys h g = (h.0, IsBytes-append xs ys h.1 g)

IsBytes-reverse : (xs : List ℕ) → IsBytes xs → IsBytes (reverse xs)
IsBytes-reverse [] h = tt
IsBytes-reverse (x ∷ xs) h =
    rw (reverse-cons x xs) (IsBytes-append (reverse xs) (x ∷ []) (IsBytes-reverse xs h.1) (h.0, tt))

IsBytes-le_bytes : (k v : ℕ) → IsBytes (le_bytes k v)
unfolding le_bytes
IsBytes-le_bytes zero v = tt
IsBytes-le_bytes (suc k) v = (omega arith, IsBytes-le_bytes k (v / 256))

-- A swapped value lies in memory the other way round.
le_bytes-byteswap : (k v : ℕ) → le_bytes k (byteswap k v) ≡ reverse (le_bytes k v)
le_bytes-byteswap k v =
    let xs = reverse (le_bytes k v) in
    let width : length xs ≡ k = length-reverse (le_bytes k v) ∙ length-le_bytes k v in
    rw width at (le_bytes-of_le_bytes xs (IsBytes-reverse (le_bytes k v) (IsBytes-le_bytes k v)))

-- A fixed-width writer writes the bytes of the value in the order that m_endian names,
-- whatever the byte order of the machine.
pub write_fixed-memory :
    (host : Endian) (k : ℕ) (b : ByteArray) (v : ℕ)
    → write_fixed host k b v ≡ write b (memory b.endian k v)
write_fixed-memory host k b v = by_order b.endian host refl
  where
    by_order : (e h : Endian) → b.endian ≡ e → write_fixed h k b v ≡ write b (memory b.endian k v)
    by_order little little q = rw q
    by_order big big q = rw q
    by_order little big q = rw q (rw (le_bytes-byteswap k v, reverse-reverse (le_bytes k v)) refl)
    by_order big little q = rw q (rw (le_bytes-byteswap k v) refl)

load-memory : (e : Endian) (k v : ℕ) → v < 256 ^ k → load e (memory e k v) ≡ v
load-memory little k v h = of_le_bytes-le_bytes k v h
load-memory big k v h = rw (reverse-reverse (le_bytes k v)) (of_le_bytes-le_bytes k v h)

byteswap-byteswap : (k v : ℕ) → v < 256 ^ k → byteswap k (byteswap k v) ≡ v
byteswap-byteswap k v h =
    rw (le_bytes-byteswap k v, reverse-reverse (le_bytes k v)) (of_le_bytes-le_bytes k v h)

-- What a reader makes of the bytes of a value in the array's order.
abbrev decoded : Endian → Endian → ℕ → List ℕ → ℕ
decoded e host k bytes =
    if same_endian e host then load host bytes else byteswap k (load host bytes)

decoded-memory : (e host : Endian) (k v : ℕ) → v < 256 ^ k → decoded e host k (memory e k v) ≡ v
decoded-memory little little k v h = load-memory little k v h
decoded-memory big big k v h = load-memory big k v h
decoded-memory little big k v h = byteswap-byteswap k v h
decoded-memory big little k v h = byteswap-byteswap k v h

-- With the bytes of `v` next, a reader gives `v` and goes behind them.
pub read_fixed-Took :
    (host : Endian) (k : ℕ) (b : ByteArray) (v : ℕ) (tail : List ℕ)
    → IsValid b
    → 0 < k
    → v < 256 ^ k
    → rest b ≡ memory b.endian k v ++ tail
    → Returns (read_fixed host k b) (Took b v tail)
read_fixed-Took host k b v tail valid pos h e =
    let width = length-memory b.endian k v in
    let (r, run, t) = read-Took b (memory b.endian k v) tail valid e (inl (omega (arith, width))) in
    (
      (decoded b.endian host k r.0, r.1),
      rw (rw width at run),
      record {
        result = rw t.result (decoded-memory b.endian host k v h);
        tail_left = t.tail_left;
        valid = t.valid;
        base_size = t.base_size;
        endian = t.endian;
      },
    )

-- A value of k bytes written by a fixed-width writer and read at the same position by the
-- reader of the same width comes back, for every positive k and every two machine byte orders,
-- if the rounding of addCapacity is right for k.
pub read_fixed-write_fixed :
    (writer reader : Endian) (k : ℕ) (b : ByteArray) (v : ℕ)
    → IsValid b
    → RoundsUp b.base_size (get_capacity b) k
    → 0 < k
    → v < 256 ^ k
    → Returns
        (write_fixed writer k b v >>= λ b'.
          set_position b' b.position >>= λ b''. read_fixed reader k b'')
        (λ r. (r.0 ≡ v) × IsValid r.1)
read_fixed-write_fixed writer reader k b v valid room pos h =
    let width = length-memory b.endian k v in
    let (b', run, w) = write-Written b (memory b.endian k v) valid (rw width room) in
    let (b'', run', u) = Written-Rewound b b' (memory b.endian k v) valid w in
    let next : rest b''
        ≡ memory b''.endian k v ++ drop (b.position + length (memory b.endian k v)) (contents b) =
      rw u.endian u.to_read in
    let (r, run'', t) = read_fixed-Took reader k b'' v _ u.valid pos h next in
    (r, rw (write_fixed-memory writer k b v, run, run', run''), (t.result, t.valid))
