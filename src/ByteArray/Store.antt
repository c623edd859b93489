-- ===== src/ByteArray/Store.antt =====
-- The state of myhttp/bytearray.h and the operations of myhttp/bytearray.cpp on the raw store.
-- The chain from `m_root` is a list; `m_cur` is the index of a node in it, or null.
-- A `size_t` is a plain number: the differences that the code takes do not wrap while
-- position ≤ size ≤ capacity, and a chain of 2 ^ 64 bytes fits no memory.
use http_practice.Prelude.{
  ℕ, ◌+◌, ◌-◌, ◌*◌, Bool, true, false, List, [], ◌∷◌, ◌++◌, Option, none, some, length, take, drop,
  replicate, ltb, leb, ◌==◌, if◌then◌else◌,
}
use http_practice.Prelude.Results.{
  Result, ok, err, out_of_range, null_pointer, ◌>>=◌, div_checked, mod_checked,
}
use http_practice.Prelude.Splice.{splice}

pub data Endian : Type 0 where
  little big : Endian

-- A block of `size` bytes; `size` is the list's length.
abbrev pub Node : Type 0
Node = List ℕ

-- `blank` is what a byte of `new char[s]` holds before it is written.
pub record ByteArray : Type 0 where
  pub base_size : ℕ
  pub position : ℕ
  pub capacity : ℕ
  pub size : ℕ
  pub endian : Endian
  pub root : List Node
  pub cur : Option ℕ
  pub blank : ℕ

abbrev pub new_node : ℕ → ℕ → Node
new_node blank s = replicate s blank

unfoldable pub new : ℕ → ℕ → ByteArray
new blank base_size = record {
  base_size = base_size;
  position = 0;
  capacity = base_size;
  size = 0;
  endian = big;
  root = new_node blank base_size ∷ [];
  cur = some 0;
  blank = blank;
}

abbrev pub is_little_endian : ByteArray → Bool
is_little_endian b = elim b.endian [ little ↦ true | big ↦ false ]

abbrev pub set_is_little_endian : Bool → ByteArray → ByteArray
set_is_little_endian val b = record b { endian = if val then little else big }

abbrev pub get_read_size : ByteArray → ℕ
get_read_size b = b.size - b.position

abbrev pub get_capacity : ByteArray → ℕ
get_capacity b = b.capacity - b.position

-- The node `k` steps down from the root: the index, or null behind the last node.
abbrev pub node_at : List Node → ℕ → Option ℕ
node_at root k = if ltb k (length root) then some k else none

-- `m_cur->…`: the index of the node and the chain from it on.
abbrev pub deref : List Node → Option ℕ → Result (ℕ × List Node)
deref root none = err null_pointer
deref root (some c) = ok (c, drop c root)

unfoldable pub clear : ByteArray → ByteArray
clear b = record b {
  position = 0;
  size = 0;
  capacity = b.base_size;
  root = take 1 b.root;
  cur = some 0;
}

-- The number of blocks that `addCapacity` appends; `size` is what is asked for, `old_cap` is there.
abbrev pub block_count : ℕ → ℕ → ℕ → Result ℕ
block_count base_size old_cap size = div_checked (size - old_cap) base_size >>= λ q.
    mod_checked (size - old_cap) base_size >>= λ r. ok (q + (if ltb old_cap r then 1 else 0))

abbrev pub append_nodes : ByteArray → ℕ → ℕ → ByteArray
append_nodes b old_cap count = record b {
  root = b.root ++ replicate count (new_node b.blank b.base_size);
  capacity = b.capacity + count * b.base_size;
  cur = if old_cap == 0 then if count == 0 then none else some (length b.root) else b.cur;
}

unfoldable pub add_capacity : ByteArray → ℕ → Result ByteArray
add_capacity b size =
    if size == 0
    then ok b
    else if leb size (get_capacity b)
    then ok b
    else (block_count b.base_size (get_capacity b) size >>= λ count.
        ok (append_nodes b (get_capacity b) count))

-- The loop of `write` from the node on which `m_cur` stands: the chain with `buf` copied in, and
-- the number of nodes that `m_cur` moved on.
unfoldable pub write_chain : ℕ → List Node → List ℕ → Result (List Node × ℕ)
write_chain npos [] buf = err null_pointer
write_chain npos (n ∷ ns) buf =
    let ncap = length n - npos in
    let rest = write_chain 0 ns (drop ncap buf) in
    if leb (length buf) ncap
    then ok (splice n npos buf ∷ ns, if length n == (npos + length buf) then 1 else 0)
    else (rest >>= λ r. ok (splice n npos (take ncap buf) ∷ r.0, r.1 + 1))

abbrev pub wrote : ByteArray → ℕ → ℕ → List Node × ℕ → ByteArray
wrote b len c r = record b {
  root = take c b.root ++ r.0;
  cur = node_at b.root (c + r.1);
  position = b.position + len;
  size = if ltb b.size (b.position + len) then b.position + len else b.size;
}

unfoldable pub write : ByteArray → List ℕ → Result ByteArray
write b buf =
    if length buf == 0
    then ok b
    else (add_capacity b (length buf) >>= λ b'. mod_checked b'.position b'.base_size >>= λ npos.
        deref b'.root b'.cur >>= λ at.
        write_chain npos at.1 buf >>= λ r. ok (wrote b' (length buf) at.0 r))

-- The loop of both `read`s while `size > 0`: the bytes, and the number of nodes moved on.
unfoldable pub read_chain : ℕ → List Node → ℕ → Result (List ℕ × ℕ)
read_chain npos [] size = err null_pointer
read_chain npos (n ∷ ns) size =
    let ncap = length n - npos in
    let rest = read_chain 0 ns (size - ncap) in
    if leb size ncap
    then ok (take size (drop npos n), if length n == (npos + size) then 1 else 0)
    else (rest >>= λ r. ok (take ncap (drop npos n) ++ r.0, r.1 + 1))

abbrev pub read_loop : ℕ → List Node → ℕ → Result (List ℕ × ℕ)
read_loop npos chain size = if size == 0 then ok ([], 0) else read_chain npos chain size

-- `read(buf, size)`: `m_cur->size` is read also where `size` is 0.
unfoldable pub read : ByteArray → ℕ → Result (List ℕ × ByteArray)
read b size =
    if ltb (get_read_size b) size
    then err out_of_range
    else (mod_checked b.position b.base_size >>= λ npos. deref b.root b.cur >>= λ at.
        read_loop npos at.1 size >>= λ r.
        ok (r.0, record b { position = b.position + size; cur = node_at b.root (at.0 + r.1) }))

-- `read(buf, size, position)`, which starts at `m_cur` whatever `position` is.
unfoldable pub read_at : ByteArray → ℕ → ℕ → Result (List ℕ)
read_at b size position =
    if ltb (get_read_size b) size
    then err out_of_range
    else (mod_checked position b.base_size >>= λ npos.
        deref b.root b.cur >>= λ at. read_loop npos at.1 size >>= λ r. ok r.0)

-- The walk of `setPosition` from the root: how many nodes `m_cur` moves on.
unfoldable pub seek : List Node → ℕ → Result ℕ
seek [] v = err null_pointer
seek (n ∷ ns) v =
    let rest = seek ns (v - length n) in
    if ltb (length n) v then (rest >>= λ k. ok (k + 1)) else ok (if v == length n then 1 else 0)

unfoldable pub set_position : ByteArray → ℕ → Result ByteArray
set_position b v =
    if ltb b.capacity v
    then err out_of_range
    else (seek b.root v >>= λ k. ok (record b {
      position = v;
      size = if ltb b.size v then v else b.size;
      cur = node_at b.root k;
    }))

unfoldable pub to_string : ByteArray → Result (List ℕ)
to_string b = if get_read_size b == 0 then ok [] else read_at b (get_read_size b) b.position
