-- ===== src/ByteArray/Chain.antt =====
-- The chain as the flat run of its bytes: the loops of `write` and `read` in
-- myhttp/bytearray.cpp, over blocks of one size.
use http_practice.Prelude.{
  ℕ, zero, suc, ◌+◌, ◌-◌, ◌*◌, ◌%◌, ◌≤◌, ◌<◌, ◌≡◌, refl, ap, sym, ◌∙◌, inl, inr, false, List, [],
  ◌∷◌, ◌++◌, arith, length, take, drop, length-append, length-take, length-drop, ltb, leb, ◌==◌,
  if◌then◌else◌, Bool-cases,
}
use http_practice.Prelude.Results.{Returns, err, null_pointer}
use http_practice.Prelude.Splice.{
  All, splice, splice-append_left, splice-append_across, length-splice, take-append, drop-append,
  take_all,
}
use http_practice.ByteArray.Store.{Node, write_chain, read_chain, seek}
use mathlib.Core.List.{flatten, append-nil, append_assoc}

abbrev pub Blocks : ℕ → List Node → Type 0
Blocks base = All (λ n. length n ≡ base)

pub length-flatten :
    (base : ℕ) (ns : List Node) → Blocks base ns → length (flatten ns) ≡ length ns * base
unfolding flatten
length-flatten base [] b = omega arith
length-flatten base (n ∷ ns) b =
    omega (arith, length-append n (flatten ns), length-flatten base ns b.1, b.0)

pub flatten-append : (ms ns : List Node) → flatten (ms ++ ns) ≡ flatten ms ++ flatten ns
unfolding flatten
flatten-append [] ns = refl
flatten-append (m ∷ ms) ns =
    rw (flatten-append ms ns) (sym (append_assoc m (flatten ms) (flatten ns)))

-- The offset in the block on which `m_cur` stands.
pub offset_in_block : (c base p : ℕ) → c * base ≤ p → p < c * base + base → p % base ≡ p - c * base
offset_in_block c base p h k = grind arith

pub below_blocks : (c base p n : ℕ) → c * base ≤ p → p < n * base → c < n
below_blocks c base p n h k = grind arith

-- What a finished run of the write loop leaves: the bytes overwritten in place, in the same blocks,
-- and `m_cur` on the block of the next byte.
pub record Wrote (base npos : ℕ) (ns : List Node) (buf : List ℕ) (r : List Node × ℕ) : Type 0 where
  pub bytes : flatten r.0 ≡ splice (flatten ns) npos buf
  pub blocks : Blocks base r.0
  pub nodes : length r.0 ≡ length ns
  pub low : r.1 * base ≤ npos + length buf
  pub high : npos + length buf < r.1 * base + base

pub write_chain-Wrote :
    (base npos : ℕ) (ns : List Node) (buf : List ℕ)
    → Blocks base ns
    → npos < base
    → 0 < length buf
    → npos + length buf ≤ length (flatten ns)
    → Returns (write_chain npos ns buf) (Wrote base npos ns buf)
unfolding write_chain flatten
write_chain-Wrote base npos [] buf b h p fits = absurd (omega arith)
write_chain-Wrote base npos (n ∷ ns) buf b h p fits =
    elim (Bool-cases (leb (length buf) (length n - npos))) [
      | inl last ↦ (
        (splice n npos buf ∷ ns, if length n == (npos + length buf) then 1 else 0),
        rw last,
        record {
          bytes = sym (splice-append_left n (flatten ns) npos buf (ground arith));
          blocks = (length-splice n npos buf (ground arith) ∙ b.0, b.1);
          nodes = refl;
          low = ground arith;
          high = ground arith;
        },
      )
      | inr more ↦
          let k = length n - npos in
          let e : length (drop k buf) ≡ length buf - k = length-drop k buf in
          let (r, run, w) =
            write_chain-Wrote base 0 ns (drop k buf) b.1 (omega arith) (ground arith)
              (ground (arith, length-append n (flatten ns))) in
          (
            (splice n npos (take k buf) ∷ r.0, r.1 + 1),
            rw (more, run),
            record {
              bytes = rw w.bytes (
                  sym (splice-append_across n (flatten ns) npos buf (ground arith) (ground arith)));
              blocks = (
                length-splice n npos (take k buf) (ground (arith, length-take k buf)) ∙ b.0,
                w.blocks,
              );
              nodes = ap suc w.nodes;
              low = ground (arith, w.low);
              high = ground (arith, w.high);
            },
          )
    ]

-- A chain too short for the bytes is walked to its end, and past it.
pub write_chain-overrun :
    (base npos : ℕ) (ns : List Node) (buf : List ℕ)
    → Blocks base ns
    → npos < base
    → length (flatten ns) < npos + length buf
    → write_chain npos ns buf ≡ err null_pointer
unfolding write_chain flatten
write_chain-overrun base npos [] buf b h over = refl
write_chain-overrun base npos (n ∷ ns) buf b h over =
    let k = length n - npos in
    let more : leb (length buf) k ≡ false = ground (arith, length-append n (flatten ns)) in
    let rest =
      write_chain-overrun base 0 ns (drop k buf) b.1 (omega arith)
        (omega (arith, length-append n (flatten ns), length-drop k buf)) in
    rw (more, rest)

-- What a finished run of a read loop gives.
pub record Reads (base npos : ℕ) (ns : List Node) (size : ℕ) (r : List ℕ × ℕ) : Type 0 where
  pub bytes : r.0 ≡ take size (drop npos (flatten ns))
  pub low : r.1 * base ≤ npos + size
  pub high : npos + size < r.1 * base + base

pub read_chain-Reads :
    (base npos : ℕ) (ns : List Node) (size : ℕ)
    → Blocks base ns
    → npos < base
    → 0 < size
    → npos + size ≤ length (flatten ns)
    → Returns (read_chain npos ns size) (Reads base npos ns size)
unfolding read_chain flatten
read_chain-Reads base npos [] size b h p fits = absurd (omega arith)
read_chain-Reads base npos (n ∷ ns) size b h p fits =
    let k = length n - npos in
    let skip : npos - length n ≡ 0 = omega arith in
    let width : length (drop npos n) ≡ k = length-drop npos n in
    elim (Bool-cases (leb size k)) [
      | inl last ↦
          let enough : size - length (drop npos n) ≡ 0 = ground arith in
          (
            (take size (drop npos n), if length n == (npos + size) then 1 else 0),
            rw last,
            record {
              bytes =
                  rw (drop-append npos n (flatten ns), take-append size (drop npos n) _, enough)
                    (sym (append-nil _));
              low = ground arith;
              high = ground arith;
            },
          )
      | inr more ↦
          let (r, run, w) =
            read_chain-Reads base 0 ns (size - k) b.1 (omega arith) (ground arith)
              (ground (arith, length-append n (flatten ns))) in
          (
            (take k (drop npos n) ++ r.0, r.1 + 1),
            rw (more, run),
            record {
              bytes =
                  rw
                    (
                      w.bytes,
                      drop-append npos n (flatten ns),
                      skip,
                      take-append size (drop npos n) (flatten ns),
                      width,
                    )
                    (ap (λ (t : List ℕ). t ++ take (size - k) (flatten ns))
                      (take_all k (drop npos n) (omega arith)
                        ∙ sym (take_all size (drop npos n) (ground arith))));
              low = ground (arith, w.low);
              high = ground (arith, w.high);
            },
          )
    ]

more_blocks : (k base v : ℕ) → base < v → v ≤ suc k * base → 0 < k
more_blocks zero base v h i = absurd (omega arith)
more_blocks (suc k) base v h i = omega arith

-- The walk from the root stops at the block of position `v`.
pub seek-at :
    (base : ℕ) (ns : List Node) (v : ℕ)
    → Blocks base ns
    → 0 < base
    → 0 < length ns
    → v ≤ length ns * base
    → Returns (seek ns v) (λ k. (k * base ≤ v) × (v < k * base + base))
unfolding seek
seek-at base [] v b p q h = absurd (omega arith)
seek-at base (n ∷ ns) v b p q h = elim (Bool-cases (ltb (length n) v)) [
  | inl more ↦
      let (k, run, w) =
        seek-at base ns (v - length n) b.1 p (more_blocks (length ns) base v (ground arith) h)
          (ground arith) in
      (k + 1, rw (more, run), (ground arith, ground arith))
  | inr here ↦ ((if v == length n then 1 else 0), rw here, (ground arith, ground arith))
]
