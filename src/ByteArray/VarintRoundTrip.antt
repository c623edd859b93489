-- ===== src/ByteArray/VarintRoundTrip.antt =====
-- The 7-bit integers round trip: their size, and what a reader makes of what a writer wrote.
use Prim.Native.Nat.{bit_and, bit_or}
use http_practice.Prelude.{
  ℕ, zero, suc, ◌+◌, ◌*◌, ◌/◌, ◌%◌, ◌^◌, ◌≤◌, ◌<◌, ◌≡◌, refl, ap, ◌∙◌, true, false, inl, inr, List,
  [], ◌∷◌, ◌++◌, arith, length, ltb, leb, Bool-cases,
}
use http_practice.Prelude.Bits.{bit_and_low7, bit_or_high, bit_or_disjoint}
use http_practice.Prelude.Results.{Returns, ok, ◌>>=◌, bind_assoc}
use http_practice.ByteArray.Store.{ByteArray, get_capacity, write, set_position}
use http_practice.ByteArray.Invariant.{IsValid}
use http_practice.ByteArray.Growth.{RoundsUp}
use http_practice.ByteArray.Write.{write-Written}
use http_practice.ByteArray.Stream.{rest, Took, read-Took, Written-Rewound}
use http_practice.ByteArray.Fixed.{first, read_fuint8}
use http_practice.ByteArray.Varint.{
  groups, gather, write_uint32, write_uint64, read_uint32, read_uint64,
}
use native.Mathlib.Nat.{pow-suc, mod-eq_of_lt}
use native.Mathlib.Numerals.{towards_suc}

-- The bytes of a value: 7 bits each, the lowest first, the high bit on all but the last.
pub data Encodes : ℕ → List ℕ → Type 0 where
  last : (v : ℕ) → v < 128 → Encodes v (v ∷ [])
  more :
      (v : ℕ) (bytes : List ℕ)
      → 128 ≤ v
      → Encodes (v / 128) bytes
      → Encodes v ((v % 128 + 128) ∷ bytes)

-- A value of 7 * cells bits fits the `cells` of `tmp`; the code emits its encoding.
pub groups-Encodes :
    (cells v : ℕ)
    → v < 128 ^ suc cells
    → Returns (groups (suc cells) v) (λ bytes. Encodes v bytes × (length bytes ≤ suc cells))
unfolding groups
groups-Encodes zero v h =
    let small : leb 0x80 v ≡ false = ground arith in
    let e : v % 256 ≡ v = omega arith in
    (v ∷ [], rw (small, e), (last v (omega arith), omega arith))
groups-Encodes (suc cells) v h = elim (Bool-cases (leb 0x80 v)) [
  | inr small ↦
      let e : v % 256 ≡ v = ground arith in
      (v ∷ [], rw (small, e), (last v (ground arith), omega arith))
  | inl big ↦
      let (bytes, run, enc) =
        groups-Encodes cells (v / 128) (omega (arith, pow-suc 128 (suc cells))) in
      let byte : bit_or (bit_and v 127) 128 % 256 ≡ v % 128 + 128 =
        rw (bit_and_low7 v, bit_or_high (v % 128) (omega arith)) (omega arith) in
      (
        (v % 128 + 128) ∷ bytes,
        rw (big, run, byte),
        (more v bytes (ground arith) enc.0, omega (arith, enc.1)),
      )
]

read_fuint8-Took :
    (b : ByteArray) (x : ℕ) (tail : List ℕ)
    → IsValid b
    → rest b ≡ x ∷ tail
    → Returns (read_fuint8 b) (Took b x tail)
unfolding read_fuint8
read_fuint8-Took b x tail v e =
    let (r, run, t) = read-Took b (x ∷ []) tail v e (inl (omega arith)) in
    (
      (first r.0, r.1),
      rw run,
      record {
        result = ap first t.result;
        tail_left = t.tail_left;
        valid = t.valid;
        base_size = t.base_size;
        endian = t.endian;
      },
    )

the_split : (v : ℕ) → v ≡ v / 128 * 128 + v % 128
the_split v = omega arith

shift_7 : (i : ℕ) → 2 ^ (i + 7) ≡ 128 * 2 ^ i
shift_7 i = simp towards_suc (omega arith)

le_group : (x q : ℕ) → x ≤ 127 → x * q ≤ 127 * q
le_group x q h = grind arith

-- One group of 7 bits, at its place above the bits gathered so far.
placed :
    (w i acc x : ℕ)
    → acc < 2 ^ i
    → x * 2 ^ i < 2 ^ w
    → bit_or acc (x * 2 ^ i % 2 ^ w) ≡ acc + x * 2 ^ i
placed w i acc x h fits =
    let whole : x * 2 ^ i % 2 ^ w ≡ x * 2 ^ i = mod-eq_of_lt fits in
    rw whole (bit_or_disjoint i acc x h)

-- One round of the loop on a byte that is not the last.
gather_more :
    (w rounds i acc y : ℕ) (b b' : ByteArray)
    → read_fuint8 b ≡ ok (y + 128, b')
    → y < 128
    → acc < 2 ^ i
    → y * 2 ^ i < 2 ^ w
    → gather w (suc rounds) i acc b ≡ gather w rounds (i + 7) (acc + y * 2 ^ i) b'
unfolding gather
gather_more w rounds i acc y b b' run small low fits =
    let go : ltb (y + 128) 128 ≡ false = ground arith in
    let bits : bit_and (y + 128) 127 ≡ y = bit_and_low7 (y + 128) ∙ omega arith in
    rw (run, go, bits, placed w i acc y low fits)

Took-pair :
    {b : ByteArray} {x : ℕ} {tail : List ℕ} {r : ℕ × ByteArray} → Took b x tail r → r ≡ (x, r.1)
Took-pair {r = r} t = λ i. (t.result i, r.1)

-- The reading loop takes an encoding off the front and adds its value above the bits it has.
pub gather-Took :
    {v : ℕ} {bytes : List ℕ} (w rounds i acc : ℕ) (b : ByteArray) (tail : List ℕ)
    → Encodes v bytes
    → length bytes ≤ rounds
    → acc < 2 ^ i
    → v * 2 ^ i < 2 ^ w
    → IsValid b
    → rest b ≡ bytes ++ tail
    → Returns (gather w rounds i acc b) (Took b (acc + v * 2 ^ i) tail)
unfolding gather
gather-Took w zero i acc b tail (last v small) len low fits valid e = absurd (omega arith)
gather-Took w zero i acc b tail (more v bytes big enc) len low fits valid e = absurd (omega arith)
gather-Took w (suc rounds) i acc b tail (last v small) len low fits valid e =
    let (r, run, t) = read_fuint8-Took b v tail valid e in
    let stop : ltb v 128 ≡ true = ground arith in
    (
      (acc + v * 2 ^ i, r.1),
      rw (run, t.result, stop, placed w i acc v low fits),
      record {
        result = refl;
        tail_left = t.tail_left;
        valid = t.valid;
        base_size = t.base_size;
        endian = t.endian;
      },
    )
gather-Took w (suc rounds) i acc b tail (more v bytes big enc) len low fits valid e =
    let x = v % 128 + 128 in
    let q = 2 ^ i in
    let (r, run, t) = read_fuint8-Took b x (bytes ++ tail) valid e in
    let split : v * q ≡ v / 128 * 128 * q + v % 128 * q =
      ap (λ (t : ℕ). t * q) (the_split v) ∙ omega arith in
    let (s, run', u) =
      gather-Took {v = v / 128} {bytes = bytes} w rounds (i + 7) (acc + v % 128 * q) r.1 tail enc
        (omega arith) (omega (arith, shift_7 i, le_group (v % 128) q (omega arith)))
        (omega (arith, split, ap (λ (t : ℕ). v / 128 * t) (shift_7 i))) t.valid t.tail_left in
    (
      s,
      gather_more w rounds i acc (v % 128) b r.1 (run ∙ ap ok (Took-pair t)) (omega arith) low
            (omega (arith, split))
          ∙ run',
      record {
        result = u.result ∙ omega (arith, split, ap (λ (t : ℕ). v / 128 * t) (shift_7 i));
        tail_left = u.tail_left;
        valid = u.valid;
        base_size = u.base_size ∙ t.base_size;
        endian = u.endian ∙ t.endian;
      },
    )

-- Every size up to `n` is met without running off the chain.
abbrev pub RoundsUpTo : ℕ → ℕ → ℕ → Type 0
RoundsUpTo base room n = (k : ℕ) → k ≤ n → RoundsUp base room k

-- Writing with `cells` bytes of `tmp`, going back and reading with as many rounds.
round_trip :
    (w cells : ℕ) (b : ByteArray) (v : ℕ)
    → IsValid b
    → RoundsUpTo b.base_size (get_capacity b) (suc cells)
    → v < 128 ^ suc cells
    → v < 2 ^ w
    → Returns
        (groups (suc cells) v >>= λ tmp.
          write b tmp >>= λ b'. set_position b' b.position >>= λ b''. gather w (suc cells) 0 0 b'')
        (λ r. (r.0 ≡ v) × IsValid r.1)
round_trip w cells b v valid room fits small =
    let (bytes, coded, enc) = groups-Encodes cells v fits in
    let (b', run, wr) = write-Written b bytes valid (room (length bytes) enc.1) in
    let (b'', run', u) = Written-Rewound b b' bytes valid wr in
    let (r, run'', t) =
      gather-Took w (suc cells) 0 0 b'' _ enc.0 enc.1 (omega arith) (omega arith) u.valid
        u.to_read in
    (r, rw (coded, run, run', run''), (t.result ∙ omega arith, t.valid))

-- writeUint32 stays within tmp[5], and readUint32 at the same position gives every value below
-- 2 ^ 32 back, if the rounding of addCapacity is right for every size up to 5.
pub read_uint32-write_uint32 :
    (b : ByteArray) (v : ℕ)
    → IsValid b
    → RoundsUpTo b.base_size (get_capacity b) 5
    → v < 2 ^ 32
    → Returns
        (write_uint32 b v >>= λ b'. set_position b' b.position >>= read_uint32)
        (λ r. (r.0 ≡ v) × IsValid r.1)
unfolding write_uint32 read_uint32
read_uint32-write_uint32 b v valid room h =
    let (r, run, t) = round_trip 32 4 b v valid room (omega arith) h in
    (
      r,
      bind_assoc (groups 5 v) (write b) (λ b'. set_position b' b.position >>= gather 32 5 0 0)
          ∙ run,
      t,
    )

-- writeUint64 stays within tmp[10], and readUint64 at the same position gives every value
-- below 2 ^ 64 back, if the rounding of addCapacity is right for every size up to 10.
pub read_uint64-write_uint64 :
    (b : ByteArray) (v : ℕ)
    → IsValid b
    → RoundsUpTo b.base_size (get_capacity b) 10
    → v < 2 ^ 64
    → Returns
        (write_uint64 b v >>= λ b'. set_position b' b.position >>= read_uint64)
        (λ r. (r.0 ≡ v) × IsValid r.1)
unfolding write_uint64 read_uint64
read_uint64-write_uint64 b v valid room h =
    let (r, run, t) = round_trip 64 9 b v valid room (omega arith) h in
    (
      r,
      bind_assoc (groups 10 v) (write b) (λ b'. set_position b' b.position >>= gather 64 10 0 0)
          ∙ run,
      t,
    )
