-- ===== src/Streams/Reading.antt =====
-- What `readFixSize` of myhttp/stream.cpp reads from a stream that delivers its bytes in pieces.
use http_practice.Prelude.{
  ℕ, zero, suc, ◌+◌, ◌-◌, ◌%◌, ◌^◌, ◌≤◌, ◌<◌, ◌≡◌, refl, ap, sym, ◌∙◌, true, false, [], ◌∷◌, ◌++◌,
  Option, some, arith, leb, ◌==◌, length, take, drop, length-append, length-drop, inl, inr,
  Bool-cases,
}
use mathlib.Core.List.{append_assoc}
use http_practice.Prelude.Int.{pos}
use http_practice.Prelude.Text.{Bytes}
use http_practice.Prelude.Splice.{
  splice, take-append, drop-append, drop-drop, take_all, drop_all, splice-append_right,
}
use http_practice.Prelude.Results.{ok}
use http_practice.Streams.Loops.{to_int, stored, fill_loop}

-- What one read does: where bytes are left, it gives some of them, at most as many as asked.
pub record Delivered {ℓ} {S : Type ℓ} (pending : S → Bytes) (n : ℕ) (s : S) (r : Option Bytes × S)
    : Type ℓ where
  pub first : ℕ
  pub others : Bytes
  pub given : r.0 ≡ some (first ∷ others)
  pub fits : suc (length others) ≤ n
  pub left : pending s ≡ (first ∷ others) ++ pending r.1

-- A stream with the bytes that it has left; at the end, a read gives none.
pub record Source {ℓ} (S : Type ℓ) : Type ℓ where
  pub read_some : ℕ → S → Option Bytes × S
  pub pending : S → Bytes
  pub delivers :
      (n : ℕ) (s : S) → 0 < n → 0 < length (pending s) → Delivered pending n s (read_some n s)
  pub ends : (n : ℕ) (s : S) → 0 < n → length (pending s) ≡ 0 → (read_some n s).0 ≡ some []

store-behind :
    (front rest : Bytes) (b : ℕ) (bs : Bytes)
    → suc (length bs) ≤ length rest
    → stored (front ++ rest) (length front) (some (b ∷ bs))
      ≡ ok (front ++ ((b ∷ bs) ++ drop (suc (length bs)) rest))
unfolding splice
store-behind front rest b bs h =
    let fits : leb (length front + suc (length bs)) (length (front ++ rest)) ≡ true =
      ground (arith, length-append front rest, h) in
    let m = suc (length bs) in
    let n : 0 + m ≡ m = omega arith in
    rw fits (
      ap ok (
        splice-append_right front rest (length front) 0 (b ∷ bs) (omega arith)
        ∙ ap (λ t. front ++ ((b ∷ bs) ++ drop t rest)) n))

take_behind :
    (n : ℕ) (xs ys : Bytes) → length xs ≤ n → take n (xs ++ ys) ≡ xs ++ take (n - length xs) ys
take_behind n xs ys h =
    take-append n xs ys ∙ ap (λ l. l ++ take (n - length xs) ys) (take_all n xs h)

drop_behind : (n : ℕ) (xs ys : Bytes) → length xs ≤ n → drop n (xs ++ ys) ≡ drop (n - length xs) ys
drop_behind n xs ys h =
    drop-append n xs ys ∙ ap (λ l. l ++ drop (n - length xs) ys) (drop_all n xs h)

empty_nil : (xs : Bytes) → length xs ≡ 0 → xs ≡ []
empty_nil [] h = refl
empty_nil (x ∷ xs) h = absurd (omega (arith, h))

-- One turn: the loop goes on behind the bytes that came.
module _ {ℓ} {S : Type ℓ} (src : Source S) where
  turn :
      (fuel len left : ℕ) (front rest : Bytes) (s : S)
      → length rest ≡ left
      → 0 < left
      → left < 2 ^ 64
      → length front + left < 2 ^ 64
      → (d : Delivered src.pending left s (src.read_some left s))
      → fill_loop src.read_some (suc fuel) len (length front) left (front ++ rest) s
        ≡ fill_loop src.read_some fuel len
            (length (front ++ (d.first ∷ d.others)))
            (left - suc (length d.others))
            ((front ++ (d.first ∷ d.others)) ++ drop (suc (length d.others)) rest)
            (src.read_some left s).1
  turn fuel len left front rest s h k small fits d =
      let nz : (left == 0) ≡ false = ground (arith, k) in
      let bound : suc (length d.others) ≤ length rest = omega (arith, d.fits, h) in
      let put = store-behind front rest d.first d.others bound in
      let m = suc (length d.others) in
      let got = d.first ∷ d.others in
      let nz' : (m % 2 ^ 64 == 0) ≡ false = ground (arith, bound, h, small) in
      let size = length-append front got in
      let o : (length front + m % 2 ^ 64) % 2 ^ 64 ≡ length (front ++ got) =
        omega (arith, size, bound, h, fits) in
      let l : (left + 2 ^ 64 - m % 2 ^ 64) % 2 ^ 64 ≡ left - m = omega (arith, bound, h, small) in
      let b = append_assoc front got (drop m rest) in rw (nz, d.given, put, nz', o, l, b) refl

  -- The loop stores the next `left` bytes behind the front, if there are so many.
  pub fill_loop-all :
      (fuel len left : ℕ) (front rest : Bytes) (s : S)
      → length rest ≡ left
      → left < fuel
      → length front + left < 2 ^ 64
      → left ≤ length (src.pending s)
      → (t : S) × (src.pending t ≡ drop left (src.pending s))
        × (fill_loop src.read_some fuel len (length front) left (front ++ rest) s
            ≡ some (ok (to_int len, (front ++ take left (src.pending s), t))))
  fill_loop-all zero len left front rest s h k fits enough = absurd (omega (arith, k))
  fill_loop-all (suc fuel) len zero front [] s h k fits enough = (s, refl, refl)
  fill_loop-all (suc fuel) len zero front (x ∷ rest) s h k fits enough = absurd (omega (arith, h))
  fill_loop-all (suc fuel) len (suc left) front rest s h k fits enough =
      let d = src.delivers (suc left) s (omega arith) (omega (arith, enough)) in
      let got = d.first ∷ d.others in
      let m = suc (length d.others) in
      let t = (src.read_some (suc left) s).1 in
      let size : length (src.pending s) ≡ m + length (src.pending t) =
        ap length d.left ∙ length-append got (src.pending t) in
      let rest' = drop m rest in
      let (u, p, e) =
        fill_loop-all fuel len (suc left - m) (front ++ got) rest' t
          (omega (arith, length-drop m rest, h)) (omega (arith, k))
          (omega (arith, length-append front got, fits, d.fits))
          (omega (arith, size, enough, d.fits)) in
      let cut = d.left in
      (
        u,
        p ∙ sym (ap (drop (suc left)) cut ∙ drop_behind (suc left) got (src.pending t) d.fits),
        turn fuel len (suc left) front rest s h (omega arith) (omega (arith, fits)) fits d
            ∙ e
            ∙ ap (λ l. some (ok (to_int len, (l, u))))
                (append_assoc front got (take (suc left - m) (src.pending t))
                  ∙ ap (λ l. front ++ l)
                      (sym (
                        ap (take (suc left)) cut
                        ∙ take_behind (suc left) got (src.pending t) d.fits))),
      )

  -- What the loop does on this fuel with a stream that is too short.
  abbrev pub EndsEarly : ℕ → ℕ → Type ℓ
  EndsEarly fuel len =
      (left : ℕ) (front rest : Bytes) (s : S)
      → length rest ≡ left
      → left < fuel
      → length front + left < 2 ^ 64
      → length (src.pending s) < left
      → (t : S) × (fill_loop src.read_some fuel len (length front) left (front ++ rest) s
          ≡ some (ok (pos 0, (front ++ (src.pending s ++ drop (length (src.pending s)) rest), t))))

  short_turn :
      (fuel len left : ℕ) (front rest : Bytes) (s : S)
      → length rest ≡ left
      → left < suc fuel
      → length front + left < 2 ^ 64
      → length (src.pending s) < left
      → 0 < length (src.pending s)
      → EndsEarly fuel len
      → (t : S) × (fill_loop src.read_some (suc fuel) len (length front) left (front ++ rest) s
          ≡ some (ok (pos 0, (front ++ (src.pending s ++ drop (length (src.pending s)) rest), t))))
  short_turn fuel len left front rest s h k fits short some_left next =
      let d = src.delivers left s (omega (arith, short)) some_left in
      let got = d.first ∷ d.others in
      let m = suc (length d.others) in
      let t = (src.read_some left s).1 in
      let p = src.pending t in
      let size : length (src.pending s) ≡ m + length p = ap length d.left ∙ length-append got p in
      let (u, e) =
        next (left - m) (front ++ got) (drop m rest) t (omega (arith, length-drop m rest, h))
          (omega (arith, k, d.fits, short)) (omega (arith, length-append front got, fits, d.fits))
          (omega (arith, size, short, d.fits)) in
      let tail : drop (length p) (drop m rest) ≡ drop (length (src.pending s)) rest =
        drop-drop (length p) m rest ∙ ap (λ n. drop n rest) (sym size) in
      (
        u,
        turn fuel len left front rest s h (omega (arith, short)) (omega (arith, fits)) fits d
            ∙ e
            ∙ ap (λ l. some (ok (pos 0, (l, u))))
                (append_assoc front got (p ++ drop (length p) (drop m rest))
                  ∙ ap (λ l. front ++ l)
                      (sym (append_assoc got p (drop (length p) (drop m rest)))
                        ∙ ap (λ l. l ++ drop (length p) (drop m rest)) (sym d.left)
                        ∙ ap (λ l. src.pending s ++ l) tail)),
      )

  -- A stream with fewer bytes: the loop stores them all, and returns 0.
  pub fill_loop-short : (fuel len : ℕ) → EndsEarly fuel len
  fill_loop-short zero len left front rest s h k fits short = absurd (omega (arith, k))
  fill_loop-short (suc fuel) len left front rest s h k fits short =
      elim (Bool-cases (length (src.pending s) == 0)) [
        | inl x ↦
            let none_left : length (src.pending s) ≡ 0 = ground (arith, x) in
            let nz : (left == 0) ≡ false = ground (arith, short) in
            let nil : src.pending s ≡ [] = empty_nil (src.pending s) none_left in
            (
              (src.read_some left s).1,
              rw (nz, src.ends left s (omega (arith, short)) none_left, nil) refl,
            )
        | inr x ↦
            short_turn fuel len left front rest s h k fits short (ground (arith, x))
              (fill_loop-short fuel len)
      ]
