-- ===== src/Streams/Loops.antt =====
-- `readFixSize` and `writeFixSize` of myhttp/stream.cpp. The virtual `read` and `write` are
-- parameters over a state of the peer: `read` gives the bytes that it stored, of which the end of
-- the stream is none, or an error, -1. A loop that runs out of fuel gives `none`.
use http_practice.Prelude.{
  ℕ, zero, suc, ◌+◌, ◌-◌, ◌%◌, ◌^◌, [], ◌∷◌, Option, none, some, ltb, leb, ◌==◌, if◌then◌else◌,
  length, take, drop,
}
use http_practice.Prelude.Int.{ℤ, pos, negsuc}
use http_practice.Prelude.Text.{Bytes}
use http_practice.Prelude.Splice.{splice}
use http_practice.Prelude.Results.{Result, ok, err, out_of_bounds}

-- The count that a call returns as an `int`, converted to a `size_t`.
abbrev pub to_size : Option ℕ → ℕ
to_size none = 2 ^ 64 - 1
to_size (some n) = n % 2 ^ 64

-- A `size_t` returned as an `int`.
abbrev pub to_int : ℕ → ℤ
to_int n = let low = n % 2 ^ 32 in if ltb low (2 ^ 31) then pos low else negsuc (2 ^ 32 - 1 - low)

abbrev pub byte_count : Option Bytes → Option ℕ
byte_count none = none
byte_count (some bs) = some (length bs)

-- The bytes stored at an offset of a buffer.
abbrev pub store : Bytes → ℕ → Bytes → Result Bytes
store buffer offset bs =
    if leb (offset + length bs) (length buffer)
    then ok (splice buffer offset bs)
    else err out_of_bounds

abbrev pub stored : Bytes → ℕ → Option Bytes → Result Bytes
stored buffer offset none = ok buffer
stored buffer offset (some []) = ok buffer
stored buffer offset (some (b ∷ bs)) = store buffer offset (b ∷ bs)

-- `left` bytes from an offset of a buffer.
abbrev pub slice : Bytes → ℕ → ℕ → Result Bytes
slice buffer offset left =
    if leb (offset + left) (length buffer)
    then ok (take left (drop offset buffer))
    else err out_of_bounds

-- A run that has fuel, and goes on if it ended normally.
abbrev pub on_ok {ℓ κ} :
    {A : Type ℓ} {B : Type κ} → Result A → (A → Option (Result B)) → Option (Result B)
on_ok (ok a) f = f a
on_ok (err e) f = some (err e)

-- What a loop returns, with the buffer and the peer.
abbrev pub Ending {ℓ} : Type ℓ → Type ℓ
Ending S = Option (Result (ℤ × (Bytes × S)))

module _ {ℓ} {S : Type ℓ} where
  -- One turn of the loop of `readFixSize`, behind its read.
  abbrev pub read_on : (ℕ → ℕ → Bytes → S → Ending S) → ℕ → ℕ → Bytes → Option Bytes → S → Ending S
  read_on next offset left buffer got s =
      let len = to_size (byte_count got) in
      on_ok (stored buffer offset got) (λ b.
        if len == 0
        then some (ok (pos 0, (b, s)))
        else next ((offset + len) % 2 ^ 64) ((left + 2 ^ 64 - len) % 2 ^ 64) b s)

  -- One turn of the loop of `writeFixSize`, behind its write.
  abbrev pub write_on : (ℕ → ℕ → S → Ending S) → ℕ → ℕ → Bytes → Option ℕ → S → Ending S
  write_on next offset left buffer sent s =
      let len = to_size sent in
      if len == 0
      then some (ok (pos 0, (buffer, s)))
      else next ((offset + len) % 2 ^ 64) ((left + 2 ^ 64 - len) % 2 ^ 64) s

-- `readFixSize` into a buffer; the read is asked for `left` bytes.
module _ {ℓ} {S : Type ℓ} (read : ℕ → S → Option Bytes × S) where
  abbrev pub fill_loop : ℕ → ℕ → ℕ → ℕ → Bytes → S → Ending S
  fill_loop zero len offset left buffer s = none
  fill_loop (suc fuel) len offset left buffer s =
      let r = read left s in
      let rest = read_on (fill_loop fuel len) offset left buffer r.0 r.1 in
      if left == 0 then some (ok (to_int len, (buffer, s))) else rest

  unfoldable pub read_fix_size : ℕ → Bytes → ℕ → S → Ending S
  read_fix_size fuel buffer len s = fill_loop fuel len 0 len buffer s

-- `writeFixSize` from a buffer; the write is given `left` bytes.
module _ {ℓ} {S : Type ℓ} (write : Bytes → S → Option ℕ × S) where
  abbrev pub drain_loop : ℕ → ℕ → ℕ → ℕ → Bytes → S → Ending S
  drain_loop zero len offset left buffer s = none
  drain_loop (suc fuel) len offset left buffer s =
      let rest = on_ok (slice buffer offset left) (λ bs.
        let r = write bs s in
        write_on (λ o l t. drain_loop fuel len o l buffer t) offset left buffer r.0 r.1) in
      if left == 0 then some (ok (to_int len, (buffer, s))) else rest

  unfoldable pub write_fix_size : ℕ → Bytes → ℕ → S → Ending S
  write_fix_size fuel buffer len s = drain_loop fuel len 0 len buffer s

-- `readFixSize` and `writeFixSize` of a ByteArray, which keeps its own position: the peer and the
-- array are one state, and a call gives its count.
module _ {ℓ} {S : Type ℓ} (transfer : ℕ → S → Option ℕ × S) where
  abbrev pub transfer_on : (ℕ → S → Option (ℤ × S)) → ℕ → Option ℕ → S → Option (ℤ × S)
  transfer_on next left got s =
      let len = to_size got in
      if len == 0 then some (pos 0, s) else next ((left + 2 ^ 64 - len) % 2 ^ 64) s

  abbrev pub transfer_loop : ℕ → ℕ → ℕ → S → Option (ℤ × S)
  transfer_loop zero len left s = none
  transfer_loop (suc fuel) len left s =
      let r = transfer left s in
      let rest = transfer_on (transfer_loop fuel len) left r.0 r.1 in
      if left == 0 then some (to_int len, s) else rest

  unfoldable pub transfer_fix_size : ℕ → ℕ → S → Option (ℤ × S)
  transfer_fix_size fuel len s = transfer_loop fuel len len s
