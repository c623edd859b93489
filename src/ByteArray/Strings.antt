-- ===== src/ByteArray/Strings.antt =====
-- Strings and floating-point numbers in myhttp/bytearray.cpp. A string is its bytes; a float or a
-- double is its bit pattern, which is all that the code moves.
use http_practice.Prelude.{
  ℕ, ◌+◌, ◌%◌, ◌^◌, ◌≤◌, ◌<◌, ◌≡◌, sym, ap, ◌∙◌, inl, List, ◌++◌, arith, length, take, drop,
  length-take, take-append-drop,
}
use http_practice.Prelude.Results.{Result, Returns, ok, ◌>>=◌, five_calls}
use http_practice.ByteArray.Store.{ByteArray, Endian, get_capacity, write, read, set_position}
use http_practice.ByteArray.Invariant.{IsValid, contents}
use http_practice.ByteArray.Growth.{RoundsUp}
use http_practice.ByteArray.Write.{write-Written}
use http_practice.ByteArray.Stream.{rest, read-Took, Written-append, Written-Rewound}
use http_practice.ByteArray.Fixed.{
  memory, write_fixed, read_fixed, write_fuint16, write_fuint32, write_fuint64, read_fuint16,
  read_fuint32, read_fuint64,
}
use http_practice.ByteArray.Varint.{write_uint64}
use http_practice.ByteArray.Wire.{length-memory, write_fixed-memory, read_fixed-Took}
use mathlib.Core.List.{append_assoc}

unfoldable pub write_float : Endian → ByteArray → ℕ → Result ByteArray
write_float host b v = write_fuint32 host b v

unfoldable pub write_double : Endian → ByteArray → ℕ → Result ByteArray
write_double host b v = write_fuint64 host b v

unfoldable pub read_float : Endian → ByteArray → Result (ℕ × ByteArray)
read_float host b = read_fuint32 host b

-- `readDouble` reads 4 bytes, and copies them widened to 64 bits.
unfoldable pub read_double : Endian → ByteArray → Result (ℕ × ByteArray)
read_double host b = read_fuint32 host b

-- `value.size()` is cut to the width of the length field.
unfoldable pub write_string16 : Endian → ByteArray → List ℕ → Result ByteArray
unfolding write_fuint16
write_string16 host b s = write_fuint16 host b (length s % 2 ^ 16) >>= λ b'. write b' s

unfoldable pub write_string32 : Endian → ByteArray → List ℕ → Result ByteArray
unfolding write_fuint32
write_string32 host b s = write_fuint32 host b (length s % 2 ^ 32) >>= λ b'. write b' s

unfoldable pub write_string64 : Endian → ByteArray → List ℕ → Result ByteArray
unfolding write_fuint64
write_string64 host b s = write_fuint64 host b (length s % 2 ^ 64) >>= λ b'. write b' s

unfoldable pub write_string_vint : ByteArray → List ℕ → Result ByteArray
write_string_vint b s = write_uint64 b (length s % 2 ^ 64) >>= λ b'. write b' s

unfoldable pub write_string_without_length : ByteArray → List ℕ → Result ByteArray
write_string_without_length b s = write b s

unfoldable pub read_string_f16 : Endian → ByteArray → Result (List ℕ × ByteArray)
unfolding read_fuint16
read_string_f16 host b = read_fuint16 host b >>= λ r. read r.1 r.0

unfoldable pub read_string_f32 : Endian → ByteArray → Result (List ℕ × ByteArray)
unfolding read_fuint32
read_string_f32 host b = read_fuint32 host b >>= λ r. read r.1 r.0

unfoldable pub read_string_f64 : Endian → ByteArray → Result (List ℕ × ByteArray)
unfolding read_fuint64
read_string_f64 host b = read_fuint64 host b >>= λ r. read r.1 r.0

-- `readStringVint` reads a fixed length of 8 bytes.
unfoldable pub read_string_vint : Endian → ByteArray → Result (List ℕ × ByteArray)
unfolding read_fuint64
read_string_vint host b = read_fuint64 host b >>= λ r. read r.1 r.0

-- The two writes of a string run to their end: the rounding of `addCapacity` is right at both.
pub record Room (host : Endian) (k n : ℕ) (b : ByteArray) (s : List ℕ) : Type 0 where
  pub header : RoundsUp b.base_size (get_capacity b) k
  pub body :
      (b' : ByteArray)
      → write_fixed host k b n ≡ ok b'
      → RoundsUp b'.base_size (get_capacity b') (length s)

round_trip :
    (writer reader : Endian) (k n : ℕ) (b : ByteArray) (s : List ℕ)
    → IsValid b
    → Room writer k n b s
    → 0 < k
    → n < 256 ^ k
    → n ≤ length s
    → 0 < n
    → Returns
        ((write_fixed writer k b n >>= λ b'. write b' s) >>= λ b''.
          set_position b'' b.position >>= λ c. read_fixed reader k c >>= λ r. read r.1 r.0)
        (λ r. (r.0 ≡ take n s) × IsValid r.1)
round_trip writer reader k n b s v room pos fits le some_bytes =
    let head = memory b.endian k n in
    let width = length-memory b.endian k n in
    let tail = drop (b.position + length (head ++ s)) (contents b) in
    let (b', run, w) = write-Written b head v (rw width room.header) in
    let first : write_fixed writer k b n ≡ ok b' = write_fixed-memory writer k b n ∙ run in
    let (b'', run', w') = write-Written b' s w.valid (room.body b' first) in
    let (c, run'', u) =
      Written-Rewound b b'' (head ++ s) v (Written-append b b' b'' head s v w w') in
    let next : rest c ≡ memory c.endian k n ++ (s ++ tail) =
      rw u.endian (u.to_read ∙ append_assoc head s tail) in
    let (r, got, t) = read_fixed-Took reader k c n (s ++ tail) u.valid pos fits next in
    let cut : length (take n s) ≡ n = omega (arith, length-take n s) in
    let body : rest r.1 ≡ take n s ++ (drop n s ++ tail) =
      t.tail_left
      ∙ ap (λ (x : List ℕ). x ++ tail) (sym (take-append-drop n s))
      ∙ append_assoc (take n s) (drop n s) tail in
    let (q, got', t') =
      read-Took r.1 (take n s) (drop n s ++ tail) t.valid body (inl (omega (arith, cut))) in
    let got'' : read r.1 r.0 ≡ ok q = ap (read r.1) (t.result ∙ sym cut) ∙ got' in
    (
      q,
      five_calls (write_fixed writer k b n) (λ x. write x s) (λ x. set_position x b.position)
          (read_fixed reader k) (λ x. read x.1 x.0) b' b'' c r q first run' run'' got got'',
      (t'.result, t'.valid),
    )

-- readStringF16 at the position where writeString16 wrote gives the first (size modulo 2 ^ 16)
-- bytes of the string, if that number is positive and the rounding of addCapacity is right at
-- both writes.
pub read_string_f16-write_string16 :
    (writer reader : Endian) (b : ByteArray) (s : List ℕ)
    → IsValid b
    → Room writer 2 (length s % 2 ^ 16) b s
    → 0 < length s % 2 ^ 16
    → Returns
        (write_string16 writer b s >>= λ b'. set_position b' b.position >>= read_string_f16 reader)
        (λ r. (r.0 ≡ take (length s % 2 ^ 16) s) × IsValid r.1)
unfolding write_string16 read_string_f16
read_string_f16-write_string16 writer reader b s v room pos =
    round_trip writer reader 2 (length s % 2 ^ 16) b s v room (omega arith) (omega arith)
      (omega arith) pos

-- readStringF32 at the position where writeString32 wrote gives the first (size modulo 2 ^ 32)
-- bytes of the string, if that number is positive and the rounding of addCapacity is right at
-- both writes.
pub read_string_f32-write_string32 :
    (writer reader : Endian) (b : ByteArray) (s : List ℕ)
    → IsValid b
    → Room writer 4 (length s % 2 ^ 32) b s
    → 0 < length s % 2 ^ 32
    → Returns
        (write_string32 writer b s >>= λ b'. set_position b' b.position >>= read_string_f32 reader)
        (λ r. (r.0 ≡ take (length s % 2 ^ 32) s) × IsValid r.1)
unfolding write_string32 read_string_f32
read_string_f32-write_string32 writer reader b s v room pos =
    round_trip writer reader 4 (length s % 2 ^ 32) b s v room (omega arith) (omega arith)
      (omega arith) pos
