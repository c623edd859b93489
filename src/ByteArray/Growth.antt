-- ===== src/ByteArray/Growth.antt =====
-- `addCapacity` of myhttp/bytearray.cpp: what it keeps, and when what it adds is enough.
use http_practice.Prelude.{
  ℕ, ◌+◌, ◌-◌, ◌*◌, ◌/◌, ◌%◌, ◌≤◌, ◌<◌, ◌≡◌, refl, sym, ◌∙◌, ◌⊎◌, inl, inr, Option, none, some,
  arith, length, replicate, length-append, length-replicate, ltb, leb, false, ◌==◌, if◌then◌else◌,
  Bool-cases,
}
use http_practice.Prelude.Results.{Returns, ok, div_checked_pos, mod_checked_pos}
use http_practice.Prelude.Splice.{take-append}
use http_practice.ByteArray.Store.{ByteArray, new_node, get_capacity, append_nodes, add_capacity}
use http_practice.ByteArray.Chain.{flatten-append}
use http_practice.ByteArray.Invariant.{
  IsValid, IsCursor, SameView, Blocks-append, Blocks-replicate, length-flatten_root,
}
use mathlib.Core.List.{flatten, append-nil}

-- The rounding of `addCapacity` is right: the room is there, or what is missing is a whole
-- number of blocks, or its last part is longer than the room left.
abbrev pub RoundsUp : ℕ → ℕ → ℕ → Type 0
RoundsUp base room len = (len ≤ room) ⊎ (((len - room) % base ≡ 0) ⊎ (room < (len - room) % base))

abbrev pub RoundsDown : ℕ → ℕ → ℕ → Type 0
RoundsDown base room len = (room < len) × (0 < (len - room) % base) × ((len - room) % base ≤ room)

-- The blocks that `addCapacity` adds where the room does not do.
abbrev pub blocks_added : ℕ → ℕ → ℕ → ℕ
blocks_added base room len = (len - room) / base + (if ltb room ((len - room) % base) then 1 else 0)

pub record Grown (b : ByteArray) (len : ℕ) (b' : ByteArray) : Type 0 where
  pub valid : IsValid b'
  pub same : SameView b b'
  pub enough : RoundsUp b.base_size (get_capacity b) len → len ≤ get_capacity b'
  pub short : RoundsDown b.base_size (get_capacity b) len → get_capacity b' < len

IsCursor-grow :
    (base p capacity more : ℕ) (cur : Option ℕ)
    → p < capacity
    → IsCursor base p capacity cur
    → IsCursor base p (capacity + more) cur
IsCursor-grow base p capacity more none h c = absurd (omega arith)
IsCursor-grow base p capacity more (some k) h c = omega arith

IsCursor-first :
    (base p nodes count : ℕ)
    → 0 < base
    → 0 < count
    → p ≡ nodes * base
    → IsCursor base p (nodes * base + count * base) (some nodes)
IsCursor-first base p nodes count h k e = grind arith

module _ (b : ByteArray) (count : ℕ) (v : IsValid b) where
  append_nodes-IsCursor :
      (b.capacity ≡ b.position → 0 < count)
      → IsCursor b.base_size b.position
          (append_nodes b (get_capacity b) count).capacity
          (append_nodes b (get_capacity b) count).cur
  append_nodes-IsCursor some_added = elim (Bool-cases (get_capacity b == 0)) [
    | inl full ↦
        let e : b.position ≡ b.capacity = ground (arith, v.read_within, v.within) in
        let pos : 0 < count = some_added (sym e) in
        let ne : (count == 0) ≡ false = ground arith in
        rw (full, ne, v.counted)
          (IsCursor-first b.base_size b.position (length b.root) count v.positive pos
            (e ∙ v.counted))
    | inr room ↦ rw room (
        IsCursor-grow b.base_size b.position b.capacity _ b.cur
          (ground (arith, v.read_within, v.within)) v.cursor)
  ]

  append_nodes-IsValid :
      (b.capacity ≡ b.position → 0 < count) → IsValid (append_nodes b (get_capacity b) count)
  append_nodes-IsValid some_added = record {
    positive = v.positive;
    rooted =
        omega
          (arith, v.rooted, length-append b.root (replicate count (new_node b.blank b.base_size)));
    blocks =
        Blocks-append b.base_size b.root _ v.blocks
          (Blocks-replicate b.base_size count _ (length-replicate b.base_size b.blank));
    counted = rw (length-append, length-replicate, v.counted) (omega arith);
    read_within = v.read_within;
    within = omega (arith, v.within);
    cursor = append_nodes-IsCursor some_added;
  }

  append_nodes-SameView : SameView b (append_nodes b (get_capacity b) count)
  append_nodes-SameView = record {
    base_size = refl;
    position = refl;
    size = refl;
    endian = refl;
    contents =
        let fits : b.size - length (flatten b.root) ≡ 0 =
          omega (arith, length-flatten_root v, v.within) in
        rw (flatten-append, take-append, fits) (append-nil _);
  }

-- The arithmetic of the rounding: with `room` bytes there, the blocks added give `len` bytes
-- exactly when the rounding is right.
added_enough :
    (base room len : ℕ)
    → 0 < base
    → room < len
    → ((len - room) % base ≡ 0) ⊎ (room < (len - room) % base)
    → len ≤ room + blocks_added base room len * base
added_enough base room len p h (inl whole) = grind arith
added_enough base room len p h (inr long) = grind arith

added_short :
    (base room len : ℕ)
    → 0 < base
    → RoundsDown base room len
    → room + blocks_added base room len * base < len
added_short base room len p h = grind arith

added_some : (base room len : ℕ) → 0 < base → 0 < len → room ≡ 0 → 0 < blocks_added base room len
added_some base room len p h e = grind arith

add_capacity-blocks :
    (b : ByteArray) (len : ℕ)
    → IsValid b
    → get_capacity b < len
    → add_capacity b len
      ≡ ok (append_nodes b (get_capacity b) (blocks_added b.base_size (get_capacity b) len))
unfolding add_capacity
add_capacity-blocks b len v more =
    let asked : (len == 0) ≡ false = ground arith in
    let missing : leb len (get_capacity b) ≡ false = ground arith in
    rw (
      asked,
      missing,
      div_checked_pos (len - get_capacity b) b.base_size v.positive,
      mod_checked_pos (len - get_capacity b) b.base_size v.positive,
    )

rounded :
    (base room len : ℕ)
    → RoundsUp base room len
    → room < len
    → ((len - room) % base ≡ 0) ⊎ (room < (len - room) % base)
rounded base room len (inl there) more = absurd (omega arith)
rounded base room len (inr r) more = r

-- `addCapacity` never fails, keeps the bytes and the cursor, and makes room for `len` bytes
-- exactly when its rounding is right.
pub add_capacity-Grown :
    (b : ByteArray) (len : ℕ) → IsValid b → 0 < len → Returns (add_capacity b len) (Grown b len)
unfolding add_capacity
add_capacity-Grown b len v pos = elim (Bool-cases (leb len (get_capacity b))) [
  | inl there ↦ (
    b,
    let asked : (len == 0) ≡ false = ground arith in rw (asked, there),
    record {
      valid = v;
      same = record {
        base_size = refl;
        position = refl;
        size = refl;
        endian = refl;
        contents = refl;
      };
      enough = λ _. ground arith;
      short = λ h. absurd (ground arith);
    },
  )
  | inr missing ↦
      let more : get_capacity b < len = ground arith in
      let k = blocks_added b.base_size (get_capacity b) len in
      let room : get_capacity (append_nodes b (get_capacity b) k)
          ≡ get_capacity b + k * b.base_size =
        omega (arith, v.read_within, v.within) in
      (
        append_nodes b (get_capacity b) k,
        add_capacity-blocks b len v more,
        record {
          valid =
              append_nodes-IsValid b k v
                (λ e. added_some b.base_size (get_capacity b) len v.positive pos (omega arith));
          same = append_nodes-SameView b k v;
          enough = λ h. rw room (
              added_enough b.base_size (get_capacity b) len v.positive more (rounded _ _ _ h more));
          short = λ h. rw room (added_short b.base_size (get_capacity b) len v.positive h);
        },
      )
]
