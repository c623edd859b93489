-- ===== src/Streams/Writing.antt =====
-- What `writeFixSize` of myhttp/stream.cpp sends to a peer that takes its bytes in pieces, and the
-- two loops over a ByteArray.
use http_practice.Prelude.{
  ℕ, zero, suc, ◌+◌, ◌-◌, ◌%◌, ◌^◌, ◌≤◌, ◌<◌, ◌≡◌, refl, ap, sym, ◌∙◌, true, false, ◌++◌, Option,
  some, arith, leb, ◌==◌, length, take, drop, length-drop, take-append-drop,
}
use mathlib.Core.List.{append-nil, append_assoc}
use http_practice.Prelude.Int.{pos}
use http_practice.Prelude.Text.{Bytes}
use http_practice.Prelude.Splice.{take_all, drop_all, drop-drop}
use http_practice.Prelude.Results.{ok}
use http_practice.Streams.Loops.{
  to_int, slice, drain_loop, write_fix_size, transfer_loop, transfer_fix_size,
}
use http_practice.Streams.FixSize.{to_int_small}

-- What one write does: the peer takes some of the bytes that it is given.
pub record Accepted {ℓ} {S : Type ℓ} (sent : S → Bytes) (bs : Bytes) (s : S) (r : Option ℕ × S)
    : Type ℓ where
  pub size : ℕ
  pub said : r.0 ≡ some size
  pub some_bytes : 0 < size
  pub fits : size ≤ length bs
  pub sends : sent r.1 ≡ sent s ++ take size bs

-- A peer with the bytes that it took.
pub record Sink {ℓ} (S : Type ℓ) : Type ℓ where
  pub write_some : Bytes → S → Option ℕ × S
  pub sent : S → Bytes
  pub accepts : (bs : Bytes) (s : S) → 0 < length bs → Accepted sent bs s (write_some bs s)

slice-rest :
    (buffer : Bytes) (offset left : ℕ)
    → offset + left ≡ length buffer
    → slice buffer offset left ≡ ok (drop offset buffer)
slice-rest buffer offset left h =
    let fits : leb (offset + left) (length buffer) ≡ true = ground (arith, h) in
    rw fits
      (ap ok (take_all left (drop offset buffer) (omega (arith, length-drop offset buffer, h))))

-- A buffer from `p` on is `n` bytes of it and the buffer from `p + n` on.
cut : (p n : ℕ) (xs : Bytes) → take n (drop p xs) ++ drop (p + n) xs ≡ drop p xs
cut p n xs =
    ap (λ t. take n (drop p xs) ++ t) (sym (drop-drop n p xs)) ∙ take-append-drop n (drop p xs)

module _ {ℓ} {S : Type ℓ} (sink : Sink S) where
  drain_loop-all :
      (fuel len offset left : ℕ) (buffer : Bytes) (s : S)
      → offset + left ≡ length buffer
      → left < fuel
      → length buffer < 2 ^ 64
      → (t : S) × (sink.sent t ≡ sink.sent s ++ drop offset buffer)
        × (drain_loop sink.write_some fuel len offset left buffer s
            ≡ some (ok (to_int len, (buffer, t))))
  drain_loop-all zero len offset left buffer s h k small = absurd (omega (arith, k))
  drain_loop-all (suc fuel) len offset zero buffer s h k small = (
    s,
    sym (
        ap (λ t. sink.sent s ++ t) (drop_all offset buffer (omega (arith, h)))
        ∙ append-nil (sink.sent s)),
    refl,
  )
  drain_loop-all (suc fuel) len offset (suc left) buffer s h k small =
      let bs = drop offset buffer in
      let size : length bs ≡ suc left = omega (arith, length-drop offset buffer, h) in
      let a = sink.accepts bs s (omega (arith, size)) in
      let fits = a.fits in
      let positive = a.some_bytes in
      let n = a.size in
      let (t, p, e) =
        drain_loop-all fuel len (offset + n) (suc left - n) buffer (sink.write_some bs s).1
          (omega (arith, h, fits, size)) (omega (arith, k, positive)) small in
      let more : (suc left == 0) ≡ false = ground arith in
      let nz : (n % 2 ^ 64 == 0) ≡ false = ground (arith, fits, positive, size, h, small) in
      let o : (offset + n % 2 ^ 64) % 2 ^ 64 ≡ offset + n = omega (arith, fits, size, h, small) in
      let l : (suc left + 2 ^ 64 - n % 2 ^ 64) % 2 ^ 64 ≡ suc left - n =
        omega (arith, fits, size, h, small) in
      (
        t,
        p
            ∙ ap (λ q. q ++ drop (offset + n) buffer) a.sends
            ∙ append_assoc (sink.sent s) (take n bs) (drop (offset + n) buffer)
            ∙ ap (λ q. sink.sent s ++ q) (cut offset n buffer),
        rw (more, slice-rest buffer offset (suc left) h, a.said, nz, o, l) e,
      )

  pub write_fix_size-all :
      (fuel len : ℕ) (buffer : Bytes) (s : S)
      → length buffer ≡ len
      → len < fuel
      → len < 2 ^ 31
      → (t : S) × (sink.sent t ≡ sink.sent s ++ buffer)
        × (write_fix_size sink.write_some fuel buffer len s ≡ some (ok (pos len, (buffer, t))))
  unfolding write_fix_size
  write_fix_size-all fuel len buffer s h k small =
      let (t, p, e) =
        drain_loop-all fuel len 0 len buffer s (omega (arith, h)) k (omega (arith, h, small)) in
      (t, p, e ∙ ap (λ r. some (ok (r, (buffer, t)))) (to_int_small len small))

-- A transfer between a peer and a ByteArray moves some of the bytes that it is asked for.
pub record Moves {ℓ} {S : Type ℓ} (moved : S → ℕ) (n : ℕ) (s : S) (r : Option ℕ × S) : Type ℓ where
  pub size : ℕ
  pub said : r.0 ≡ some size
  pub some_bytes : 0 < size
  pub fits : size ≤ n
  pub moves : moved r.1 ≡ moved s + size

module _ {ℓ} {S : Type ℓ} (transfer : ℕ → S → Option ℕ × S) (moved : S → ℕ)
    (each : (n : ℕ) (s : S) → 0 < n → Moves moved n s (transfer n s)) where
  transfer_loop-all :
      (fuel len left : ℕ) (s : S)
      → left < fuel
      → left < 2 ^ 64
      → (t : S) × (moved t ≡ moved s + left)
        × (transfer_loop transfer fuel len left s ≡ some (to_int len, t))
  transfer_loop-all zero len left s k small = absurd (omega (arith, k))
  transfer_loop-all (suc fuel) len zero s k small = (s, omega arith, refl)
  transfer_loop-all (suc fuel) len (suc left) s k small =
      let a = each (suc left) s (omega arith) in
      let fits = a.fits in
      let positive = a.some_bytes in
      let n = a.size in
      let (t, p, e) =
        transfer_loop-all fuel len (suc left - n) (transfer (suc left) s).1
          (omega (arith, k, positive)) (omega (arith, small)) in
      let more : (suc left == 0) ≡ false = ground arith in
      let nz : (n % 2 ^ 64 == 0) ≡ false = ground (arith, fits, positive, small) in
      let l : (suc left + 2 ^ 64 - n % 2 ^ 64) % 2 ^ 64 ≡ suc left - n =
        omega (arith, fits, small) in
      (t, omega (arith, p, a.moves, fits), rw (more, a.said, nz, l) e)

  -- readFixSize and writeFixSize of a ByteArray over fewer than 2^31 bytes, where each call
  -- moves one byte at least and at most as many as asked, end with fuel for one turn more than
  -- the bytes, return the size, and have moved exactly so many bytes.
  pub transfer_fix_size-all :
      (fuel len : ℕ) (s : S)
      → len < fuel
      → len < 2 ^ 31
      → (t : S) × (moved t ≡ moved s + len)
        × (transfer_fix_size transfer fuel len s ≡ some (pos len, t))
  unfolding transfer_fix_size
  transfer_fix_size-all fuel len s k small =
      let (t, p, e) = transfer_loop-all fuel len len s k (omega (arith, small)) in
      (t, p, e ∙ ap (λ r. some (r, t)) (to_int_small len small))
