-- ===== src/ByteArray/Stream.antt =====
-- Writing a run of bytes, going back with `setPosition` and reading it again: what the codecs of
-- myhttp/bytearray.cpp are built on.
use http_practice.Prelude.{
  ℕ, ◌+◌, ◌-◌, ◌≡◌, refl, sym, ap, ◌∙◌, List, ◌++◌, arith, length, drop, false, ltb, length-append,
  length-drop,
}
use http_practice.Prelude.Results.{Returns}
use http_practice.Prelude.Splice.{
  splice-splice, drop-splice, take_all, take-append, drop-append, drop_all, drop-drop,
}
use http_practice.ByteArray.Store.{ByteArray, get_read_size, read, set_position}
use http_practice.ByteArray.Invariant.{IsValid, contents, length-contents}
use http_practice.ByteArray.Write.{Written}
use http_practice.ByteArray.Read.{OnNode, read-ReadOk, set_position-Moved}
use mathlib.Core.List.{append-nil}

-- The bytes not read yet.
abbrev pub rest : ByteArray → List ℕ
rest b = drop b.position (contents b)

pub length-rest : {b : ByteArray} → IsValid b → length (rest b) ≡ get_read_size b
length-rest {b} v = omega (arith, length-drop b.position (contents b), length-contents v)

-- A read took `bytes` off the front, and left `tail`.
pub record Took {ℓ} {A : Type ℓ} (b : ByteArray) (a : A) (tail : List ℕ) (r : A × ByteArray)
    : Type ℓ where
  pub result : r.0 ≡ a
  pub tail_left : rest r.1 ≡ tail
  pub valid : IsValid r.1
  pub base_size : r.1.base_size ≡ b.base_size
  pub endian : r.1.endian ≡ b.endian

pub read-Took :
    (b : ByteArray) (bytes tail : List ℕ)
    → IsValid b
    → rest b ≡ bytes ++ tail
    → OnNode b (length bytes)
    → Returns (read b (length bytes)) (Took b bytes tail)
read-Took b bytes tail v e on =
    let n = length bytes in
    let width : get_read_size b ≡ n + length tail =
      sym (length-rest v) ∙ ap length e ∙ length-append bytes tail in
    let zero : n - n ≡ 0 = omega arith in
    let (r, run, w) = read-ReadOk b n v (omega arith) on in
    (
      r,
      run,
      record {
        result =
            w.bytes
            ∙ rw (e, take-append n bytes tail, zero, take_all n bytes (omega arith))
                (append-nil bytes);
        tail_left =
            rw (w.contents, w.position, ← drop-drop n b.position (contents b), e)
              (rw (drop-append n bytes tail, zero, drop_all n bytes (omega arith)) refl);
        valid = w.valid;
        base_size = w.base_size;
        endian = w.endian;
      },
    )

-- What a writer put at the position of `b`: `bytes`, in an array that is still valid.
pub Written-append :
    (b b' b'' : ByteArray) (xs ys : List ℕ)
    → IsValid b
    → Written b xs b'
    → Written b' ys b''
    → Written b (xs ++ ys) b''
Written-append b b' b'' xs ys v w u = record {
  valid = u.valid;
  position = omega (arith, w.position, u.position, length-append xs ys);
  contents =
      rw (u.contents, w.contents, w.position)
        (splice-splice (contents b) b.position xs ys (omega (arith, length-contents v)));
  base_size = u.base_size ∙ w.base_size;
  endian = u.endian ∙ w.endian;
}

-- Back at the position where they were written, the bytes are the next to be read; behind them
-- stands what they did not reach.
pub record Rewound (b : ByteArray) (bytes : List ℕ) (b' : ByteArray) : Type 0 where
  pub valid : IsValid b'
  pub to_read : rest b' ≡ bytes ++ drop (b.position + length bytes) (contents b)
  pub base_size : b'.base_size ≡ b.base_size
  pub endian : b'.endian ≡ b.endian

pub Written-Rewound :
    (b b' : ByteArray) (bytes : List ℕ)
    → IsValid b
    → Written b bytes b'
    → Returns (set_position b' b.position) (Rewound b bytes)
Written-Rewound b b' bytes v w =
    let (b'', run, m) =
      (set_position-Moved b' b.position w.valid).0
        (omega (arith, w.position, w.valid.read_within, w.valid.within)) in
    (
      b'',
      run,
      record {
        valid = m.valid;
        to_read =
            let within : ltb b'.size b.position ≡ false =
              ground (arith, w.position, w.valid.read_within) in
            rw (m.position, m.root, m.size, within, w.contents)
              (drop-splice (contents b) b.position bytes (omega (arith, length-contents v)));
        base_size = m.base_size ∙ w.base_size;
        endian = m.endian ∙ w.endian;
      },
    )
