-- ===== src/ByteArray/Tests.antt =====
-- The theorems about myhttp/bytearray.cpp at concrete arrays, and runs of the code.
use http_practice.Prelude.{◌≡◌, refl, inl, some, List, [], ◌∷◌, arith}
use http_practice.Prelude.Results.{Returns, ok, err, out_of_range, ◌>>=◌}
use http_practice.Prelude.Splice.{splice}
use http_practice.ByteArray.Store.{
  ByteArray, little, big, new, write, read, set_position, add_capacity, write_chain, read_chain,
  to_string, read_at,
}
use http_practice.ByteArray.Invariant.{IsValid, new-IsValid}
use http_practice.ByteArray.Write.{Written, write-Written}
use http_practice.ByteArray.File.{
  Call, writes, reads, seeks, call, spec, file, run_all, AllSmooth, Refines, run_all-Refines,
}
use http_practice.ByteArray.Iovecs.{
  get_read_buffers, gathered, limited, get_read_buffers-read, to_hex_string,
}
use mathlib.Core.List.{flatten}
use http_practice.ByteArray.Fixed.{write_fixed, read_fixed, le_bytes, of_le_bytes}
use http_practice.ByteArray.Wire.{read_fixed-write_fixed}
use http_practice.ByteArray.Varint.{write_uint32, read_uint32, groups}
use http_practice.ByteArray.VarintRoundTrip.{read_uint32-write_uint32}
use http_practice.ByteArray.Strings.{Room}

-- Blocks of 4 bytes, and of 1.
abbrev small : ByteArray
small = new 0 4

abbrev units : ByteArray
units = new 0 1

small-IsValid : IsValid small
small-IsValid = (new-IsValid 0 4 (omega arith)).0

units-IsValid : IsValid units
units-IsValid = (new-IsValid 0 1 (omega arith)).0

write-Written_example : Returns (write small (1 ∷ 2 ∷ 3 ∷ [])) (Written small (1 ∷ 2 ∷ 3 ∷ []))
unfolding new
write-Written_example = write-Written small (1 ∷ 2 ∷ 3 ∷ []) small-IsValid (inl (omega arith))

-- Six bytes in two blocks, the first byte read.
abbrev six : ByteArray
six = record {
  base_size = 4;
  position = 1;
  capacity = 8;
  size = 6;
  endian = big;
  root = (1 ∷ 2 ∷ 3 ∷ 4 ∷ []) ∷ (5 ∷ 6 ∷ 0 ∷ 0 ∷ []) ∷ [];
  cur = some 0;
  blank = 0;
}

six-IsValid : IsValid six
six-IsValid = record {
  positive = omega arith;
  rooted = omega arith;
  blocks = (refl, (refl, tt));
  counted = refl;
  read_within = omega arith;
  within = omega arith;
  cursor = omega arith;
}

read_across : read six 4 >>= (λ r. ok r.0) ≡ ok (2 ∷ 3 ∷ 4 ∷ 5 ∷ [])
unfolding read read_chain
read_across = refl

abbrev session : List Call
session = writes (7 ∷ 8 ∷ []) ∷ seeks 0 ∷ reads 3 ∷ reads 9 ∷ []

session-AllSmooth : AllSmooth session six
session-AllSmooth = (
  inl (omega arith),
  λ r _. (omega arith, λ r' _. (inl (omega arith), λ r'' _. (inl (omega arith), λ r''' _. tt))),
)

run_all-Refines_example : Refines (run_all call session six) (run_all spec session (file six))
run_all-Refines_example = run_all-Refines session six six-IsValid session-AllSmooth

session_fails : run_all spec session (file six) ≡ err out_of_range
unfolding splice flatten
session_fails = refl

read_fixed-write_fixed_example :
    Returns
      (write_fixed big 2 six 0x1234 >>= λ b. set_position b 1 >>= λ c. read_fixed little 2 c)
      (λ r. (r.0 ≡ 0x1234) × IsValid r.1)
read_fixed-write_fixed_example =
    read_fixed-write_fixed big little 2 six 0x1234 six-IsValid (inl (omega arith)) (omega arith)
      (omega arith)

read_uint32-write_uint32_example :
    Returns
      (write_uint32 six 300 >>= λ b. set_position b 1 >>= read_uint32)
      (λ r. (r.0 ≡ 300) × IsValid r.1)
read_uint32-write_uint32_example =
    read_uint32-write_uint32 six 300 six-IsValid (λ k h. inl (omega arith)) (omega arith)

three_hundred : groups 5 300 ≡ ok (0xAC ∷ 2 ∷ [])
unfolding groups
three_hundred = refl

room16 : Room big 2 2 six (9 ∷ 9 ∷ [])
unfolding write add_capacity write_chain splice le_bytes of_le_bytes
room16 = record { header = inl (omega arith); body = λ b' e. inl (ground arith) }

room32 : Room big 4 1 six (9 ∷ [])
unfolding write add_capacity write_chain splice le_bytes of_le_bytes
room32 = record { header = inl (omega arith); body = λ b' e. inl (ground arith) }

-- The four bytes asked for lie in both blocks.
four_bytes : (get_read_buffers six 4 >>= λ r. ok (gathered six.root r.0)) ≡ ok (2 ∷ 3 ∷ 4 ∷ 5 ∷ [])
unfolding get_read_buffers
four_bytes = refl

get_read_buffers-read_example :
    (get_read_buffers six 4 >>= λ r. ok (gathered six.root r.0))
    ≡ (read six (limited six 4) >>= λ r. ok r.0)
get_read_buffers-read_example = get_read_buffers-read six 4 (omega arith) (omega arith)

-- Two digits and a blank for each byte.
hex_of_six :
    to_hex_string six
    ≡ ok (
        b'0' ∷ b'2' ∷ b' ' ∷ b'0' ∷ b'3' ∷ b' ' ∷ b'0' ∷ b'4' ∷ b' ' ∷ b'0' ∷ b'5' ∷ b' ' ∷ b'0'
        ∷ b'6' ∷ b' ' ∷ [])
unfolding to_hex_string to_string read_at read_chain
hex_of_six = refl
