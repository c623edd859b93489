-- ===== src/ByteArray/Varint.antt =====
-- The 7-bit integers of myhttp/bytearray.cpp and their zigzag form.
use Prim.Native.Nat.{bit_and, bit_or, bit_xor}
use http_practice.Prelude.{
  ℕ, zero, suc, ◌+◌, ◌-◌, ◌*◌, ◌/◌, ◌%◌, ◌^◌, List, [], ◌∷◌, ltb, leb, if◌then◌else◌,
}
use http_practice.Prelude.Int.{ℤ, pos, negsuc}
use http_practice.Prelude.Results.{Result, ok, err, out_of_bounds, ◌>>=◌}
use http_practice.ByteArray.Store.{ByteArray, write}
use http_practice.ByteArray.Fixed.{read_fuint8}

-- The loop that fills `tmp`, of which `cells` are left: `tmp[i++]` past its end is out of bounds.
unfoldable pub groups : ℕ → ℕ → Result (List ℕ)
groups zero value = err out_of_bounds
groups (suc cells) value =
    let more = groups cells (value / 2 ^ 7) in
    if leb 0x80 value
    then (more >>= λ tmp. ok (bit_or (bit_and value 0x7F) 0x80 % 256 ∷ tmp))
    else ok (value % 256 ∷ [])

unfoldable pub write_uint32 : ByteArray → ℕ → Result ByteArray
write_uint32 b value = groups 5 value >>= λ tmp. write b tmp

unfoldable pub write_uint64 : ByteArray → ℕ → Result ByteArray
write_uint64 b value = groups 10 value >>= λ tmp. write b tmp

-- The reading loop with `rounds` rounds left, at shift `i`, in words of `w` bits. `i` runs over
-- 0, 7, … below `w`: 5 rounds for 32 bits, 10 for 64.
unfoldable pub gather : ℕ → ℕ → ℕ → ℕ → ByteArray → Result (ℕ × ByteArray)
gather w zero i result b = ok (result, b)
gather w (suc rounds) i result b = read_fuint8 b >>= λ r.
    (let last = bit_or result (r.0 * 2 ^ i % 2 ^ w) in
      let group = bit_or result (bit_and r.0 0x7F * 2 ^ i % 2 ^ w) in
      let more = gather w rounds (i + 7) group r.1 in if ltb r.0 0x80 then ok (last, r.1) else more)

unfoldable pub read_uint32 : ByteArray → Result (ℕ × ByteArray)
read_uint32 b = gather 32 5 0 0 b

unfoldable pub read_uint64 : ByteArray → Result (ℕ × ByteArray)
read_uint64 b = gather 64 10 0 0 b

-- `EncodeZigzag32`; `-v` wraps at the least value, as compilers have it.
unfoldable pub encode_zigzag32 : ℤ → ℕ
encode_zigzag32 (pos n) = n * 2 % 2 ^ 32
encode_zigzag32 (negsuc n) = (suc n % 2 ^ 32 * 2 + 2 ^ 32 - 1) % 2 ^ 32

-- `EncodeZigzag64`, which casts the negated value to 32 bits; the sum is taken in 32 bits too.
unfoldable pub encode_zigzag64 : ℤ → ℕ
encode_zigzag64 (pos n) = n * 2 % 2 ^ 64
encode_zigzag64 (negsuc n) = (suc n % 2 ^ 32 * 2 + 2 ^ 32 - 1) % 2 ^ 32

-- The number that a pattern of 32 bits stands for.
unfoldable pub signed32 : ℕ → ℤ
signed32 w = if ltb w (2 ^ 31) then pos w else negsuc (2 ^ 32 - w - 1)

-- `(v >> 1) ^ -(v & 1)`, the mask in the width of `v`, cast to 32 bits.
unfoldable pub decode_zigzag32 : ℕ → ℤ
unfolding signed32
decode_zigzag32 v = signed32 (bit_xor (v / 2) ((2 ^ 32 - bit_and v 1) % 2 ^ 32) % 2 ^ 32)

-- `DecodeZigzag64` returns an `int32_t`, which `readInt64` widens.
unfoldable pub decode_zigzag64 : ℕ → ℤ
unfolding signed32
decode_zigzag64 v = signed32 (bit_xor (v / 2) ((2 ^ 64 - bit_and v 1) % 2 ^ 64) % 2 ^ 32)

unfoldable pub write_int32 : ByteArray → ℤ → Result ByteArray
write_int32 b v = write_uint32 b (encode_zigzag32 v)

unfoldable pub write_int64 : ByteArray → ℤ → Result ByteArray
write_int64 b v = write_uint64 b (encode_zigzag64 v)

unfoldable pub read_int32 : ByteArray → Result (ℤ × ByteArray)
read_int32 b = read_uint32 b >>= λ r. ok (decode_zigzag32 r.0, r.1)

unfoldable pub read_int64 : ByteArray → Result (ℤ × ByteArray)
read_int64 b = read_uint64 b >>= λ r. ok (decode_zigzag64 r.0, r.1)
