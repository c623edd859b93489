-- ===== src/ByteArray/Zigzag.antt =====
-- The zigzag form of signed integers in myhttp/bytearray.cpp.
use Prim.Native.Nat.{bit_and, bit_xor}
use http_practice.Prelude.{
  ℕ, ◌+◌, ◌-◌, ◌*◌, ◌/◌, ◌%◌, ◌^◌, ◌≤◌, ◌<◌, ◌≡◌, ◌≢◌, ◌∙◌, false, true, arith, ltb,
}
use http_practice.Prelude.Int.{ℤ, pos, negsuc, pos_part, neg_part}
use http_practice.Prelude.Bits.{bit_and_low1, bit_xor-zero, bit_xor_ones}
use http_practice.Prelude.Results.{Returns, ok, ◌>>=◌, bind_then}
use http_practice.ByteArray.Store.{ByteArray, get_capacity, set_position}
use http_practice.ByteArray.Invariant.{IsValid}
use http_practice.ByteArray.VarintRoundTrip.{RoundsUpTo, read_uint32-write_uint32}
use http_practice.ByteArray.Varint.{
  encode_zigzag32, encode_zigzag64, decode_zigzag32, decode_zigzag64, signed32, write_int32,
  read_int32, write_uint32, read_uint32,
}

-- An `int32_t`, and an `int64_t`.
abbrev pub IsInt32 : ℤ → Type 0
IsInt32 v = (pos_part v < 2 ^ 31) × (neg_part v ≤ 2 ^ 31)

abbrev pub IsInt64 : ℤ → Type 0
IsInt64 v = (pos_part v < 2 ^ 63) × (neg_part v ≤ 2 ^ 63)

-- The code words: the even ones for 0, 1, 2, …, the odd ones for -1, -2, ….
abbrev pub code_word : ℤ → ℕ
code_word (pos n) = 2 * n
code_word (negsuc n) = 2 * n + 1

encode_zigzag32-code_word : (v : ℤ) → IsInt32 v → encode_zigzag32 v ≡ code_word v
unfolding encode_zigzag32
encode_zigzag32-code_word (pos n) h = omega arith
encode_zigzag32-code_word (negsuc n) h = omega arith

decode_zigzag32-code_word : (v : ℤ) → IsInt32 v → decode_zigzag32 (code_word v) ≡ v
unfolding decode_zigzag32
decode_zigzag32-code_word (pos n) h =
    let bit : bit_and (2 * n) 1 ≡ 0 = bit_and_low1 (2 * n) ∙ omega arith in
    let half : 2 * n / 2 ≡ n = omega arith in
    let small : n % 2 ^ 32 ≡ n = omega arith in
    let sign : ltb n (2 ^ 31) ≡ true = ground arith in rw (bit, half, bit_xor-zero n, small, sign)
decode_zigzag32-code_word (negsuc n) h =
    let bit : bit_and (2 * n + 1) 1 ≡ 1 = bit_and_low1 (2 * n + 1) ∙ omega arith in
    let half : (2 * n + 1) / 2 ≡ n = omega arith in
    let flip : bit_xor n (2 ^ 32 - 1) ≡ 2 ^ 32 - 1 - n = bit_xor_ones 32 n (omega arith) in
    let small : (2 ^ 32 - 1 - n) % 2 ^ 32 ≡ 2 ^ 32 - 1 - n = omega arith in
    let sign : ltb (2 ^ 32 - 1 - n) (2 ^ 31) ≡ false = ground arith in
    let back : 2 ^ 32 - (2 ^ 32 - 1 - n) - 1 ≡ n = omega arith in
    rw (bit, half, flip, small, sign, back)

-- DecodeZigzag32 undoes EncodeZigzag32 on every int32_t, the least included, and the code word
-- is below 2 ^ 32.
pub decode_zigzag32-encode_zigzag32 :
    (v : ℤ) → IsInt32 v → (decode_zigzag32 (encode_zigzag32 v) ≡ v) × (encode_zigzag32 v < 2 ^ 32)
decode_zigzag32-encode_zigzag32 v h = (
  rw (encode_zigzag32-code_word v h) (decode_zigzag32-code_word v h),
  rw (encode_zigzag32-code_word v h) (bounded v h),
)
  where
    bounded : (v : ℤ) → IsInt32 v → code_word v < 2 ^ 32
    bounded (pos n) h = omega arith
    bounded (negsuc n) h = omega arith

signed32-IsInt32 : (w : ℕ) → w < 2 ^ 32 → IsInt32 (signed32 w)
unfolding signed32
signed32-IsInt32 w h = ground arith

decode_zigzag64-IsInt32 : (w : ℕ) → IsInt32 (decode_zigzag64 w)
unfolding decode_zigzag64
decode_zigzag64-IsInt32 w = signed32-IsInt32 _ (omega arith)

encode_zigzag64-code_word : (v : ℤ) → IsInt32 v → encode_zigzag64 v ≡ code_word v
unfolding encode_zigzag64
encode_zigzag64-code_word (pos n) h = omega arith
encode_zigzag64-code_word (negsuc n) h = omega arith

decode_zigzag64-code_word : (v : ℤ) → IsInt32 v → decode_zigzag64 (code_word v) ≡ v
unfolding decode_zigzag64
decode_zigzag64-code_word (pos n) h =
    let bit : bit_and (2 * n) 1 ≡ 0 = bit_and_low1 (2 * n) ∙ omega arith in
    let half : 2 * n / 2 ≡ n = omega arith in
    let small : n % 2 ^ 32 ≡ n = omega arith in
    let sign : ltb n (2 ^ 31) ≡ true = ground arith in rw (bit, half, bit_xor-zero n, small, sign)
decode_zigzag64-code_word (negsuc n) h =
    let bit : bit_and (2 * n + 1) 1 ≡ 1 = bit_and_low1 (2 * n + 1) ∙ omega arith in
    let half : (2 * n + 1) / 2 ≡ n = omega arith in
    let flip : bit_xor n (2 ^ 64 - 1) ≡ 2 ^ 64 - 1 - n = bit_xor_ones 64 n (omega arith) in
    let small : (2 ^ 64 - 1 - n) % 2 ^ 32 ≡ 2 ^ 32 - 1 - n = omega arith in
    let sign : ltb (2 ^ 32 - 1 - n) (2 ^ 31) ≡ false = ground arith in
    let back : 2 ^ 32 - (2 ^ 32 - 1 - n) - 1 ≡ n = omega arith in
    rw (bit, half, flip, small, sign, back)

-- DecodeZigzag64 undoes EncodeZigzag64 on the values of an int32_t and on no other value.
pub decode_zigzag64-encode_zigzag64 :
    (v : ℤ)
    → (IsInt32 v → decode_zigzag64 (encode_zigzag64 v) ≡ v)
      × (¬ IsInt32 v → decode_zigzag64 (encode_zigzag64 v) ≢ v)
decode_zigzag64-encode_zigzag64 v = (
  λ h. rw (encode_zigzag64-code_word v h) (decode_zigzag64-code_word v h),
  λ wide same. wide (rw same at (decode_zigzag64-IsInt32 (encode_zigzag64 v))),
)

-- readInt32 gives back every int32_t that writeInt32 wrote at the same position, if the
-- rounding of addCapacity is right for every size up to 5.
pub read_int32-write_int32 :
    (b : ByteArray) (v : ℤ)
    → IsValid b
    → RoundsUpTo b.base_size (get_capacity b) 5
    → IsInt32 v
    → Returns
        (write_int32 b v >>= λ b'. set_position b' b.position >>= read_int32)
        (λ r. (r.0 ≡ v) × IsValid r.1)
unfolding write_int32 read_int32
read_int32-write_int32 b v valid room h =
    let code = decode_zigzag32-encode_zigzag32 v h in
    let (r, run, t) = read_uint32-write_uint32 b (encode_zigzag32 v) valid room code.1 in
    (
      (decode_zigzag32 r.0, r.1),
      bind_then (write_uint32 b (encode_zigzag32 v)) (λ b'. set_position b' b.position) read_uint32
          (λ s. ok (decode_zigzag32 s.0, s.1)) run,
      (rw t.0 code.0, t.1),
    )
