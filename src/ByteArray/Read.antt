-- ===== src/ByteArray/Read.antt =====
-- `read`, `setPosition` and `toString` of myhttp/bytearray.cpp against the byte file.
use http_practice.Prelude.{
  ℕ, zero, suc, ◌+◌, ◌-◌, ◌*◌, ◌%◌, ◌⊎◌, ◌≤◌, ◌<◌, ◌≡◌, refl, sym, ap, ◌∙◌, Option, none, some,
  List, arith, length, take, drop, false, ltb, ◌==◌, if◌then◌else◌, Bool-cases, inl, inr,
  length-drop,
}
use http_practice.Prelude.Results.{
  Result, Returns, ok, err, null_pointer, out_of_range, mod_checked_pos,
}
use http_practice.Prelude.Splice.{take-take, drop-append, drop_all, drop-take, take_all}
use http_practice.ByteArray.Store.{
  ByteArray, node_at, get_read_size, read_loop, read, read_at, set_position, to_string,
}
use http_practice.ByteArray.Chain.{read_chain-Reads, offset_in_block, seek-at}
use http_practice.ByteArray.Invariant.{IsValid, IsCursor, contents, Blocks-drop, length-contents}
use http_practice.ByteArray.Write.{Located, Located-cursor, IsCursor-node_at}
use mathlib.Core.List.{flatten}

-- The bytes that a read of `n` gives: those of the contents from the position on.
abbrev pub ahead : ByteArray → ℕ → List ℕ
ahead b n = take n (drop b.position (contents b))

-- The node under the cursor holds the byte at the position: `read(buf, n)` with `n` bytes left.
ahead_bytes :
    (b : ByteArray) (c n : ℕ)
    → IsValid b
    → Located b c
    → n ≤ get_read_size b
    → take n (drop (b.position - c * b.base_size) (flatten (drop c b.root))) ≡ ahead b n
ahead_bytes b c n v l h =
    let gone : b.position - length (flatten (take c b.root)) ≡ b.position - c * b.base_size =
      omega (arith, l.before) in
    let whole : drop b.position (flatten b.root)
        ≡ drop (b.position - c * b.base_size) (flatten (drop c b.root)) =
      rw (l.parts, drop-append b.position (flatten (take c b.root)) (flatten (drop c b.root)), gone)
        (rw (drop_all b.position (flatten (take c b.root)) (omega (arith, l.before, l.offset)))
          refl) in
    rw (← whole, drop-take b.position b.size (flatten b.root))
      (sym (take-take n (b.size - b.position) (drop b.position (flatten b.root)) h))

-- What the loops give from a cursor that is on a node: the node's index, and the nodes moved on.
record Scan (b : ByteArray) (n : ℕ) : Type 0 where
  node : ℕ
  moved : ℕ
  there : b.cur ≡ some node
  run : read_loop (b.position % b.base_size) (drop node b.root) n ≡ ok (ahead b n, moved)
  low : (node + moved) * b.base_size ≤ b.position + n
  high : b.position + n < (node + moved) * b.base_size + b.base_size

-- There is something to read, or the cursor is on a node all the same.
abbrev pub OnNode : ByteArray → ℕ → Type 0
OnNode b n = (0 < n) ⊎ (b.position < b.capacity)

scanned :
    (b : ByteArray) (cur : Option ℕ) (n : ℕ)
    → b.cur ≡ cur
    → IsValid b
    → n ≤ get_read_size b
    → OnNode b n
    → Scan b n
scanned b none n e v h on =
    let at : IsCursor b.base_size b.position b.capacity none = rw e at v.cursor in
    absurd (ground (arith, v.within, v.read_within))
scanned b (some c) zero e v h on =
    let at : IsCursor b.base_size b.position b.capacity (some c) = rw e at v.cursor in
    record { node = c; moved = 0; there = e; run = refl; low = omega arith; high = omega arith }
scanned b (some c) (suc n) e v h on =
    let at : IsCursor b.base_size b.position b.capacity (some c) = rw e at v.cursor in
    let l = Located-cursor b c v at in
    let (r, run, w) =
      read_chain-Reads b.base_size (b.position - c * b.base_size) (drop c b.root) (suc n)
        (Blocks-drop b.base_size c b.root v.blocks) l.inside (omega arith)
        (omega (arith, l.offset, l.behind, v.within)) in
    let asked : (suc n == 0) ≡ false = ground arith in
    record {
      node = c;
      moved = r.1;
      there = e;
      run =
          rw (asked, offset_in_block c b.base_size b.position at.1 at.2, run)
            (ap {B = Result (List ℕ × ℕ)} (λ (t : List ℕ). ok (t, r.1))
              (w.bytes ∙ ahead_bytes b c (suc n) v l h));
      low = omega (arith, w.low, l.offset);
      high = omega (arith, w.high, l.offset);
    }

-- The bytes read, with the array that is the same but for its position.
pub record ReadOk (b : ByteArray) (n : ℕ) (r : List ℕ × ByteArray) : Type 0 where
  pub bytes : r.0 ≡ ahead b n
  pub valid : IsValid r.1
  pub position : r.1.position ≡ b.position + n
  pub contents : take r.1.size (flatten r.1.root) ≡ take b.size (flatten b.root)
  pub size : r.1.size ≡ b.size
  pub base_size : r.1.base_size ≡ b.base_size
  pub endian : r.1.endian ≡ b.endian

-- A read of no more than is there, not of nothing at the end of the chain, gives the next
-- bytes of the contents and moves only the position, in a valid array.
pub read-ReadOk :
    (b : ByteArray) (n : ℕ)
    → IsValid b
    → n ≤ get_read_size b
    → OnNode b n
    → Returns (read b n) (ReadOk b n)
unfolding read
read-ReadOk b n v h on =
    let s = scanned b b.cur n refl v h on in
    let enough : ltb (get_read_size b) n ≡ false = ground arith in
    (
      (ahead b n, record b { position = b.position + n; cur = node_at b.root (s.node + s.moved) }),
      rw (enough, mod_checked_pos b.position b.base_size v.positive, s.there, s.run),
      record {
        bytes = refl;
        valid = record {
          positive = v.positive;
          rooted = v.rooted;
          blocks = v.blocks;
          counted = v.counted;
          read_within = omega (arith, v.read_within);
          within = v.within;
          cursor =
              IsCursor-node_at b.root b.base_size (b.position + n) b.capacity (s.node + s.moved)
                v.counted (omega (arith, v.within, v.read_within)) s.low s.high;
        };
        position = refl;
        contents = refl;
        size = refl;
        base_size = refl;
        endian = refl;
      },
    )

-- On a valid array a read of more than is there throws out_of_range, and a read of nothing at
-- the end of the chain dereferences a null pointer.
pub read_fails :
    (b : ByteArray) (n : ℕ)
    → IsValid b
    → (get_read_size b < n → read b n ≡ err out_of_range)
      × (b.position ≡ b.capacity → read b 0 ≡ err null_pointer)
unfolding read
read_fails b n v = (λ short. ground arith, λ end. at_end b.cur refl end)
  where
    at_end : (cur : Option ℕ) → b.cur ≡ cur → b.position ≡ b.capacity → read b 0 ≡ err null_pointer
    at_end none e end =
        let enough : ltb (get_read_size b) 0 ≡ false = ground arith in
        rw (enough, mod_checked_pos b.position b.base_size v.positive, e)
    at_end (some c) e end =
        let at : IsCursor b.base_size b.position b.capacity (some c) = rw e at v.cursor in
        absurd (omega arith)

-- `read(buf, n, position)` at the array's own position gives the same bytes and moves nothing.
pub read_at-ahead :
    (b : ByteArray) (n : ℕ)
    → IsValid b
    → n ≤ get_read_size b
    → OnNode b n
    → read_at b n b.position ≡ ok (ahead b n)
unfolding read_at
read_at-ahead b n v h on =
    let s = scanned b b.cur n refl v h on in
    let enough : ltb (get_read_size b) n ≡ false = ground arith in
    rw (enough, mod_checked_pos b.position b.base_size v.positive, s.there, s.run)

-- toString of a valid array gives all the bytes from the position to the end of the contents.
pub to_string_lem : (b : ByteArray) → IsValid b → to_string b ≡ ok (drop b.position (contents b))
unfolding to_string
to_string_lem b v = elim (Bool-cases (get_read_size b == 0)) [
  | inl nothing ↦ rw (nothing, drop_all b.position (contents b) (ground (arith, length-contents v)))
  | inr left ↦
      rw (left, read_at-ahead b (get_read_size b) v (omega arith) (inl (ground arith)))
        (rw (
          take_all (get_read_size b) (drop b.position (contents b))
            (omega (arith, length-contents v, length-drop b.position (contents b)))))
]

-- `setPosition` inside the chain moves the position there; the bytes up to it count as written.
pub record Moved (b : ByteArray) (p : ℕ) (b' : ByteArray) : Type 0 where
  pub valid : IsValid b'
  pub position : b'.position ≡ p
  pub root : b'.root ≡ b.root
  pub size : b'.size ≡ (if ltb b.size p then p else b.size)
  pub base_size : b'.base_size ≡ b.base_size
  pub endian : b'.endian ≡ b.endian

-- setPosition on a valid array: within the capacity it ends in a valid array at the new
-- position, with the same chain and the size raised to the position if that is larger; beyond
-- the capacity it throws out_of_range.
pub set_position-Moved :
    (b : ByteArray) (p : ℕ)
    → IsValid b
    → (p ≤ b.capacity → Returns (set_position b p) (Moved b p))
      × (b.capacity < p → set_position b p ≡ err out_of_range)
unfolding set_position
set_position-Moved b p v = (moves, λ h. ground arith)
  where
    moves : p ≤ b.capacity → Returns (set_position b p) (Moved b p)
    moves h =
        let (k, run, at) =
          seek-at b.base_size b.root p v.blocks v.positive v.rooted (omega (arith, v.counted)) in
        let inside : ltb b.capacity p ≡ false = ground arith in
        (
          record b {
            position = p;
            size = if ltb b.size p then p else b.size;
            cur = node_at b.root k;
          },
          rw (inside, run),
          record {
            valid = record {
              positive = v.positive;
              rooted = v.rooted;
              blocks = v.blocks;
              counted = v.counted;
              read_within = ground arith;
              within = ground (arith, v.within);
              cursor = IsCursor-node_at b.root b.base_size p b.capacity k v.counted h at.0 at.1;
            };
            position = refl;
            root = refl;
            size = refl;
            base_size = refl;
            endian = refl;
          },
        )
