-- ===== src/ByteArray/Write.antt =====
-- `write` of myhttp/bytearray.cpp against the byte file that the array stands for.
use http_practice.Prelude.{
  ℕ, ◌+◌, ◌-◌, ◌*◌, ◌≤◌, ◌<◌, ◌≡◌, refl, sym, ap, ◌∙◌, Option, none, some, List, [], ◌∷◌, ◌++◌,
  arith, length, take, drop, false, ltb, ◌==◌, Bool-cases, inl, inr, take-append-drop, length-take,
  length-drop, length-append,
}
use http_practice.Prelude.Results.{
  Result, Returns, ok, err, null_pointer, ◌>>=◌, mod_checked, mod_checked_pos,
}
use http_practice.Prelude.Splice.{splice, take-splice, splice-nil, splice-append_right}
use http_practice.ByteArray.Store.{
  ByteArray, Node, node_at, deref, write_chain, wrote, get_capacity, write,
}
use http_practice.ByteArray.Chain.{
  Wrote, length-flatten, flatten-append, offset_in_block, below_blocks, write_chain-Wrote,
  write_chain-overrun,
}
use http_practice.ByteArray.Invariant.{
  IsValid, IsCursor, SameView, Blocks-append, Blocks-take, Blocks-drop, length-flatten_root,
}
use http_practice.ByteArray.Growth.{RoundsUp, RoundsDown, add_capacity-Grown}
use mathlib.Core.List.{flatten}

-- The bytes of `buf` stand over those from the position on, and the position is behind them.
pub record Written (b : ByteArray) (buf : List ℕ) (b' : ByteArray) : Type 0 where
  pub valid : IsValid b'
  pub position : b'.position ≡ b.position + length buf
  pub contents :
      take b'.size (flatten b'.root) ≡ splice (take b.size (flatten b.root)) b.position buf
  pub base_size : b'.base_size ≡ b.base_size
  pub endian : b'.endian ≡ b.endian

-- The cursor's node, its offset, and the bytes of the chain before and behind.
pub record Located (b : ByteArray) (c : ℕ) : Type 0 where
  pub offset : b.position ≡ c * b.base_size + (b.position - c * b.base_size)
  pub inside : b.position - c * b.base_size < b.base_size
  pub before : length (flatten (take c b.root)) ≡ c * b.base_size
  pub parts : flatten b.root ≡ flatten (take c b.root) ++ flatten (drop c b.root)
  pub behind : c * b.base_size + length (flatten (drop c b.root)) ≡ b.capacity

pub Located-cursor :
    (b : ByteArray) (c : ℕ)
    → IsValid b
    → IsCursor b.base_size b.position b.capacity (some c)
    → Located b c
Located-cursor b c v at =
    let base = b.base_size in
    let inside : c < length b.root =
      below_blocks c base b.position (length b.root) at.1 (omega (arith, v.counted)) in
    let width : length (take c b.root) ≡ c = omega (arith, length-take c b.root) in
    let before : length (flatten (take c b.root)) ≡ c * base =
      length-flatten base (take c b.root) (Blocks-take base c b.root v.blocks)
      ∙ ap (λ (t : ℕ). t * base) width in
    let parts : flatten b.root ≡ flatten (take c b.root) ++ flatten (drop c b.root) =
      rw (← flatten-append (take c b.root) (drop c b.root), take-append-drop c b.root) refl in
    record {
      offset = omega (arith, at.1);
      inside = omega (arith, at.2);
      before = before;
      parts = parts;
      behind = omega (
        arith,
        before,
        ap length parts,
        length-append (flatten (take c b.root)) (flatten (drop c b.root)),
        length-flatten_root v,
      );
    }

pub IsCursor-node_at :
    (root : List Node) (base p capacity k : ℕ)
    → capacity ≡ length root * base
    → p ≤ capacity
    → k * base ≤ p
    → p < k * base + base
    → IsCursor base p capacity (node_at root k)
IsCursor-node_at root base p capacity k e h low high = elim (Bool-cases (ltb k (length root))) [
  | inl inside ↦ rw inside (within (length root) (ground arith), low, high)
  | inr past ↦ rw past (omega (arith, behind (length root) (ground arith)))
]
  where
    within : (n : ℕ) → (k < n) × (capacity ≡ n * base) → p < capacity
    within n h = grind arith

    behind : (n : ℕ) → (n ≤ k) × (capacity ≡ n * base) → capacity ≤ p
    behind n h = grind arith

-- The state that `write` leaves once the room is there.
wrote-Written :
    (b : ByteArray) (c : ℕ) (buf : List ℕ) (r : List Node × ℕ)
    → IsValid b
    → IsCursor b.base_size b.position b.capacity (some c)
    → b.position + length buf ≤ b.capacity
    → Wrote b.base_size (b.position - c * b.base_size) (drop c b.root) buf r
    → Written b buf (wrote b (length buf) c r)
wrote-Written b c buf r v at fits w =
    let base = b.base_size in
    let l = Located-cursor b c v at in
    let nodes : length (take c b.root ++ r.0) ≡ length b.root =
      rw (length-append, length-take, w.nodes, length-drop) (omega arith) in
    let low : (c + r.1) * base ≤ b.position + length buf = omega (arith, w.low, l.offset) in
    let high : b.position + length buf < (c + r.1) * base + base =
      omega (arith, w.high, l.offset) in
    record {
      valid = record {
        positive = v.positive;
        rooted = omega (arith, nodes, v.rooted);
        blocks = Blocks-append base _ _ (Blocks-take base c b.root v.blocks) w.blocks;
        counted = v.counted ∙ ap (λ (t : ℕ). t * base) (sym nodes);
        read_within = ground arith;
        within = ground (arith, v.within);
        cursor =
            IsCursor-node_at b.root base (b.position + length buf) b.capacity (c + r.1) v.counted
              fits low high;
      };
      position = refl;
      contents =
          rw
            (
              flatten-append,
              w.bytes,
              ← splice-append_right (flatten (take c b.root)) (flatten (drop c b.root)) b.position
                  (b.position - c * base) buf (omega (arith, l.offset, l.before)),
              ← l.parts,
            )
            (take-splice b.size _ (flatten b.root) b.position buf v.read_within (ground arith)
              (ground arith) (omega (arith, v.within, length-flatten_root v)));
      base_size = refl;
      endian = refl;
    }

Written-trans :
    (b b' b'' : ByteArray) (buf : List ℕ) → SameView b b' → Written b' buf b'' → Written b buf b''
Written-trans b b' b'' buf s w = record {
  valid = w.valid;
  position = omega (arith, w.position, s.position);
  contents = rw (w.contents, s.contents, s.position);
  base_size = w.base_size ∙ s.base_size;
  endian = w.endian ∙ s.endian;
}

-- The rest of `write`, from a state that has the room and whose cursor is on a node.
abbrev fill : ByteArray → List ℕ → Result ByteArray
fill b buf = mod_checked b.position b.base_size >>= λ npos.
    deref b.root b.cur >>= λ at. write_chain npos at.1 buf >>= λ r. ok (wrote b (length buf) at.0 r)

fill-Written :
    (b : ByteArray) (cur : Option ℕ) (buf : List ℕ)
    → b.cur ≡ cur
    → IsValid b
    → 0 < length buf
    → b.position + length buf ≤ b.capacity
    → Returns (fill b buf) (Written b buf)
fill-Written b none buf e v pos fits =
    let at : IsCursor b.base_size b.position b.capacity none = rw e at v.cursor in
    absurd (omega arith)
fill-Written b (some c) buf e v pos fits =
    let at : IsCursor b.base_size b.position b.capacity (some c) = rw e at v.cursor in
    let l = Located-cursor b c v at in
    let (r, run, w) =
      write_chain-Wrote b.base_size (b.position - c * b.base_size) (drop c b.root) buf
        (Blocks-drop b.base_size c b.root v.blocks) l.inside pos
        (omega (arith, l.offset, l.behind)) in
    (
      wrote b (length buf) c r,
      rw (
        mod_checked_pos b.position b.base_size v.positive,
        e,
        offset_in_block c b.base_size b.position at.1 at.2,
        run,
      ),
      wrote-Written b c buf r v at fits w,
    )

-- Where the rounding of addCapacity is right, write ends normally in a valid array whose
-- contents are the old ones with the buffer copied over them at the position, and whose
-- position is behind the buffer; block size and byte order stay.
pub write-Written :
    (b : ByteArray) (buf : List ℕ)
    → IsValid b
    → RoundsUp b.base_size (get_capacity b) (length buf)
    → Returns (write b buf) (Written b buf)
unfolding write
write-Written b [] v h = (
  b,
  refl,
  record {
    valid = v;
    position = omega arith;
    contents = sym (splice-nil _ b.position);
    base_size = refl;
    endian = refl;
  },
)
write-Written b (x ∷ xs) v h =
    let buf = x ∷ xs in
    let (b', run, g) = add_capacity-Grown b (length buf) v (omega arith) in
    let (b'', run', w) =
      fill-Written b' b'.cur buf refl g.valid (omega arith)
        (omega (arith, g.enough h, g.valid.read_within, g.valid.within)) in
    let asked : (length buf == 0) ≡ false = ground arith in
    (b'', rw (asked, run, run'), Written-trans b b' b'' buf g.same w)

fill-overrun :
    (b : ByteArray) (cur : Option ℕ) (buf : List ℕ)
    → b.cur ≡ cur
    → IsValid b
    → b.capacity < b.position + length buf
    → fill b buf ≡ err null_pointer
fill-overrun b none buf e v over = rw (mod_checked_pos b.position b.base_size v.positive, e)
fill-overrun b (some c) buf e v over =
    let at : IsCursor b.base_size b.position b.capacity (some c) = rw e at v.cursor in
    let l = Located-cursor b c v at in
    rw (
      mod_checked_pos b.position b.base_size v.positive,
      e,
      offset_in_block c b.base_size b.position at.1 at.2,
      write_chain-overrun b.base_size (b.position - c * b.base_size) (drop c b.root) buf
          (Blocks-drop b.base_size c b.root v.blocks) l.inside (omega (arith, l.offset, l.behind)),
    )

-- Where some room is left and the missing bytes modulo the block size are positive and no more
-- than that room, addCapacity adds too few blocks and write dereferences a null pointer.
pub write-overrun :
    (b : ByteArray) (buf : List ℕ)
    → IsValid b
    → RoundsDown b.base_size (get_capacity b) (length buf)
    → write b buf ≡ err null_pointer
unfolding write
write-overrun b buf v h =
    let (b', run, g) = add_capacity-Grown b (length buf) v (omega arith) in
    let asked : (length buf == 0) ≡ false = ground arith in
    rw (asked, run)
      (fill-overrun b' b'.cur buf refl g.valid
        (omega (arith, g.short h, g.valid.read_within, g.valid.within)))
