-- ===== src/ByteArray/Fixed.antt =====
-- The fixed-width integers of myhttp/bytearray.cpp and the byte swaps of myhttp/endian.h.
-- `host` is MYHTTP_BYTE_ORDER, the byte order of the machine; a signed value stands as the pattern
-- of its two's complement, so a signed writer and its unsigned twin are one function here.
use http_practice.Prelude.{
  ℕ, zero, suc, ◌+◌, ◌*◌, ◌/◌, ◌%◌, ◌^◌, ◌<◌, ◌≡◌, refl, ap, Bool, true, false, List, [], ◌∷◌,
  arith, length, if◌then◌else◌,
}
use http_practice.Prelude.Results.{Result, ok, ◌>>=◌}
use http_practice.Prelude.Splice.{All}
use native.Mathlib.Nat.{pow-suc}
use http_practice.ByteArray.Store.{ByteArray, Endian, little, big, write, read}
use mathlib.Core.List.{reverse}

-- The low `k` bytes of a number, the lowest first, and back.
unfoldable pub le_bytes : ℕ → ℕ → List ℕ
le_bytes zero v = []
le_bytes (suc k) v = v % 256 ∷ le_bytes k (v / 256)

unfoldable pub of_le_bytes : List ℕ → ℕ
of_le_bytes [] = 0
of_le_bytes (x ∷ xs) = x + 256 * of_le_bytes xs

-- A value of `k` bytes as the machine stores it, and as `memcpy` into a variable reads it.
abbrev pub memory : Endian → ℕ → ℕ → List ℕ
memory little k v = le_bytes k v
memory big k v = reverse (le_bytes k v)

abbrev pub load : Endian → List ℕ → ℕ
load little bs = of_le_bytes bs
load big bs = of_le_bytes (reverse bs)

-- `bswap_16`, `bswap_32` and `bswap_64` for `k` of 2, 4 and 8.
abbrev pub byteswap : ℕ → ℕ → ℕ
byteswap k v = of_le_bytes (reverse (le_bytes k v))

abbrev pub same_endian : Endian → Endian → Bool
same_endian little little = true
same_endian big big = true
same_endian _ _ = false

unfoldable pub write_fuint8 : ByteArray → ℕ → Result ByteArray
write_fuint8 b v = write b (v ∷ [])

-- The common body of `writeFuint16`, `writeFuint32`, `writeFuint64` and of the signed three.
abbrev pub write_fixed : Endian → ℕ → ByteArray → ℕ → Result ByteArray
write_fixed host k b v =
    write b (memory host k (if same_endian b.endian host then v else byteswap k v))

unfoldable pub write_fuint16 : Endian → ByteArray → ℕ → Result ByteArray
write_fuint16 host b v = write_fixed host 2 b v

unfoldable pub write_fuint32 : Endian → ByteArray → ℕ → Result ByteArray
write_fuint32 host b v = write_fixed host 4 b v

unfoldable pub write_fuint64 : Endian → ByteArray → ℕ → Result ByteArray
write_fuint64 host b v = write_fixed host 8 b v

abbrev pub first : List ℕ → ℕ
first [] = 0
first (x ∷ xs) = x

unfoldable pub read_fuint8 : ByteArray → Result (ℕ × ByteArray)
read_fuint8 b = read b 1 >>= λ r. ok (first r.0, r.1)

-- The macro XX of the readers.
abbrev pub read_fixed : Endian → ℕ → ByteArray → Result (ℕ × ByteArray)
read_fixed host k b = read b k >>= λ r.
    ok ((if same_endian b.endian host then load host r.0 else byteswap k (load host r.0)), r.1)

unfoldable pub read_fuint16 : Endian → ByteArray → Result (ℕ × ByteArray)
read_fuint16 host b = read_fixed host 2 b

unfoldable pub read_fuint32 : Endian → ByteArray → Result (ℕ × ByteArray)
read_fuint32 host b = read_fixed host 4 b

unfoldable pub read_fuint64 : Endian → ByteArray → Result (ℕ × ByteArray)
read_fuint64 host b = read_fixed host 8 b

pub length-le_bytes : (k v : ℕ) → length (le_bytes k v) ≡ k
unfolding le_bytes
length-le_bytes zero v = refl
length-le_bytes (suc k) v = ap suc (length-le_bytes k (v / 256))

pub of_le_bytes-le_bytes : (k v : ℕ) → v < 256 ^ k → of_le_bytes (le_bytes k v) ≡ v
unfolding le_bytes of_le_bytes
of_le_bytes-le_bytes zero v h = omega arith
of_le_bytes-le_bytes (suc k) v h =
    omega (arith, of_le_bytes-le_bytes k (v / 256) (omega (arith, pow-suc 256 k)))

abbrev pub IsBytes : List ℕ → Type 0
IsBytes = All (λ x. x < 256)

pub le_bytes-of_le_bytes : (xs : List ℕ) → IsBytes xs → le_bytes (length xs) (of_le_bytes xs) ≡ xs
unfolding le_bytes of_le_bytes
le_bytes-of_le_bytes [] h = refl
le_bytes-of_le_bytes (x ∷ xs) h =
    let low : (x + 256 * of_le_bytes xs) % 256 ≡ x = omega (arith, h.0) in
    let high : (x + 256 * of_le_bytes xs) / 256 ≡ of_le_bytes xs = omega (arith, h.0) in
    rw (low, high) (ap (◌∷◌ x) (le_bytes-of_le_bytes xs h.1))
