-- ===== src/Streams/FixSize.antt =====
-- `readFixSize` of myhttp/stream.cpp as a whole: of a stream that is long enough, of one that ends,
-- and of one whose read fails.
use http_practice.Prelude.{
  ℕ, suc, ◌+◌, ◌%◌, ◌-◌, ◌^◌, ◌≤◌, ◌<◌, ◌≡◌, refl, ap, ◌∙◌, false, [], ◌∷◌, ◌++◌, Option, none,
  some, arith, leb, ◌==◌, length, take, drop,
}
use http_practice.Prelude.Int.{pos}
use http_practice.Prelude.Text.{Bytes}
use http_practice.Prelude.Results.{ok, err, out_of_bounds}
use http_practice.Streams.Loops.{to_int, read_fix_size}
use http_practice.Streams.Reading.{Source, fill_loop-all, fill_loop-short}

pub to_int_small : (len : ℕ) → len < 2 ^ 31 → to_int len ≡ pos len
to_int_small len h = ground (arith, h)

module _ {ℓ} {S : Type ℓ} (src : Source S) where
  -- readFixSize of fewer than 2^31 bytes into a buffer of that size, from a stream that has so
  -- many and whose reads each give one byte at least and at most as many as asked, ends with
  -- fuel for one turn more than the bytes, returns the size, leaves exactly the first bytes of
  -- the stream in the buffer, and the rest in the stream.
  pub read_fix_size-all :
      (fuel len : ℕ) (buffer : Bytes) (s : S)
      → length buffer ≡ len
      → len < fuel
      → len < 2 ^ 31
      → len ≤ length (src.pending s)
      → (t : S) × (src.pending t ≡ drop len (src.pending s))
        × (read_fix_size src.read_some fuel buffer len s
            ≡ some (ok (pos len, (take len (src.pending s), t))))
  unfolding read_fix_size
  read_fix_size-all fuel len buffer s h k small enough =
      let (t, p, e) =
        fill_loop-all src fuel len len [] buffer s h k (omega (arith, small)) enough in
      (t, p, e ∙ ap (λ r. some (ok (r, (take len (src.pending s), t)))) (to_int_small len small))

  pub read_fix_size-short :
      (fuel len : ℕ) (buffer : Bytes) (s : S)
      → length buffer ≡ len
      → len < fuel
      → len < 2 ^ 31
      → length (src.pending s) < len
      → (t : S) × (read_fix_size src.read_some fuel buffer len s
          ≡ some (ok (pos 0, (src.pending s ++ drop (length (src.pending s)) buffer, t))))
  unfolding read_fix_size
  read_fix_size-short fuel len buffer s h k small short =
      fill_loop-short src fuel len len [] buffer s h k (omega (arith, small)) short

-- Where the first read of readFixSize fails and the second one, which is asked for one byte
-- more than the buffer holds, gives some, readFixSize stores out of the bounds of the buffer.
pub read_fix_size-fails {ℓ} :
    {S : Type ℓ} (read : ℕ → S → Option Bytes × S) (fuel len : ℕ) (buffer : Bytes) (s t u : S)
    (b : ℕ) (bs : Bytes)
    → 0 < len
    → len < 2 ^ 31
    → length buffer ≡ len
    → read len s ≡ (none, t)
    → read (suc len) t ≡ (some (b ∷ bs), u)
    → read_fix_size read (suc (suc fuel)) buffer len s ≡ some (err out_of_bounds)
unfolding read_fix_size
read_fix_size-fails read fuel len buffer s t u b bs h small size first second =
    let nz : (len == 0) ≡ false = ground (arith, h) in
    let more : (len + 2 ^ 64 - (2 ^ 64 - 1)) % 2 ^ 64 ≡ suc len = omega (arith, small) in
    let nz' : (suc len == 0) ≡ false = ground arith in
    let beyond : leb (18446744073709551615 + suc (length bs)) (length buffer) ≡ false =
      ground (arith, size, small) in
    rw (nz, first, more, nz', second, beyond) refl
