-- ===== src/Streams/Tests.antt =====
-- The loops of myhttp/stream.cpp with concrete peers.
use http_practice.Prelude.{
  ℕ, zero, suc, ◌+◌, ◌<◌, ◌≡◌, refl, [], ◌∷◌, ◌++◌, Option, none, some, arith, length, take,
}
use http_practice.Prelude.Int.{pos}
use http_practice.Prelude.Text.{Bytes, bytes}
use http_practice.Prelude.Results.{ok}
use http_practice.Streams.Loops.{read_fix_size, write_fix_size}
use http_practice.Streams.Reading.{Source, Delivered}
use http_practice.Streams.FixSize.{read_fix_size-all, read_fix_size-short}
use http_practice.Streams.Writing.{Sink, write_fix_size-all}

-- A peer that sends one byte at a time.
abbrev one_byte : ℕ → Bytes → Option Bytes × Bytes
one_byte n [] = (some [], [])
one_byte n (b ∷ bs) = (some (b ∷ []), bs)

abbrev slow : Source Bytes
slow = record { read_some = one_byte; pending = λ s. s; delivers = sends; ends = stops }
  where
    sends :
        (n : ℕ) (s : Bytes)
        → 0 < n
        → 0 < length s
        → Delivered {S = Bytes} (λ t. t) n s (one_byte n s)
    sends n [] h k = absurd (omega (arith, k))
    sends n (b ∷ bs) h k = record {
      first = b;
      others = [];
      given = refl;
      fits = omega (arith, h);
      left = refl;
    }

    stops : (n : ℕ) (s : Bytes) → 0 < n → length s ≡ 0 → (one_byte n s).0 ≡ some []
    stops n [] h k = refl
    stops n (b ∷ bs) h k = absurd (omega (arith, k))

read_fix_size-all_example :
    (t : Bytes) × (t ≡ bytes "lo")
    × (read_fix_size one_byte 4 (bytes "...") 3 (bytes "hello")
        ≡ some (ok (pos 3, (bytes "hel", t))))
read_fix_size-all_example =
    read_fix_size-all slow 4 3 (bytes "...") (bytes "hello") refl (omega arith) (omega arith)
      (omega arith)

read_fix_size-short_example :
    (t : Bytes) × (read_fix_size one_byte 4 (bytes "...") 3 (bytes "he")
      ≡ some (ok (pos 0, (bytes "he.", t))))
read_fix_size-short_example =
    read_fix_size-short slow 4 3 (bytes "...") (bytes "he") refl (omega arith) (omega arith)
      (omega arith)

-- A read that is interrupted once.
abbrev interrupted : ℕ → ℕ → Option Bytes × ℕ
interrupted n zero = (none, 1)
interrupted n (suc s) = (some (b'x' ∷ []), 2)

-- A peer that takes one byte at a time.
abbrev takes_one : Bytes → Bytes → Option ℕ × Bytes
takes_one bs s = (some 1, s ++ take 1 bs)

abbrev slow_sink : Sink Bytes
slow_sink = record {
  write_some = takes_one;
  sent = λ s. s;
  accepts = λ bs s h. record {
    size = 1;
    said = refl;
    some_bytes = omega arith;
    fits = omega (arith, h);
    sends = refl;
  };
}

write_fix_size-all_example :
    (t : Bytes) × (t ≡ bytes "a" ++ bytes "bcd")
    × (write_fix_size takes_one 4 (bytes "bcd") 3 (bytes "a") ≡ some (ok (pos 3, (bytes "bcd", t))))
write_fix_size-all_example =
    write_fix_size-all slow_sink 4 3 (bytes "bcd") (bytes "a") refl (omega arith) (omega arith)

abbrev moves_one : ℕ → ℕ → Option ℕ × ℕ
moves_one n s = (some 1, s + 1)
