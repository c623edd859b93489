-- ===== src/ByteArray/File.antt =====
-- The contract of myhttp/bytearray.h: a file of bytes with a position. The calls of
-- myhttp/bytearray.cpp refine it, however the bytes lie in the blocks.
use http_practice.Prelude.{
  ℕ, ◌+◌, ◌-◌, ◌≤◌, ◌≡◌, refl, inl, inr, List, [], ◌∷◌, arith, length, take, drop, ltb,
  if◌then◌else◌, Bool-cases,
}
use http_practice.Prelude.Results.{Result, ok, err, out_of_range, ◌>>=◌}
use http_practice.Prelude.Splice.{splice}
use http_practice.ByteArray.Store.{
  ByteArray, clear, write, read, set_position, get_capacity, get_read_size,
}
use http_practice.ByteArray.Invariant.{IsValid, contents, clear-IsValid, length-contents}
use http_practice.ByteArray.Growth.{RoundsUp}
use http_practice.ByteArray.Write.{write-Written}
use http_practice.ByteArray.Read.{OnNode, read-ReadOk, read_fails, set_position-Moved}

pub record File : Type 0 where
  pub bytes : List ℕ
  pub at : ℕ

abbrev pub file : ByteArray → File
file b = record { bytes = contents b; at = b.position }

pub data Call : Type 0 where
  writes : List ℕ → Call
  reads : ℕ → Call
  seeks : ℕ → Call
  clears : Call

-- A call with the bytes that it gives back.
abbrev pub call : Call → ByteArray → Result (List ℕ × ByteArray)
call (writes buf) b = write b buf >>= λ b'. ok ([], b')
call (reads n) b = read b n
call (seeks p) b = set_position b p >>= λ b'. ok ([], b')
call clears b = ok ([], clear b)

abbrev pub spec : Call → File → Result (List ℕ × File)
spec (writes buf) f = ok ([], record { bytes = splice f.bytes f.at buf; at = f.at + length buf })
spec (reads n) f =
    if ltb (length f.bytes - f.at) n
    then err out_of_range
    else ok (take n (drop f.at f.bytes), record f { at = f.at + n })
spec (seeks p) f = ok ([], record f { at = p })
spec clears f = ok ([], record { bytes = []; at = 0 })

-- Where the code keeps to the contract: the rounding of `addCapacity` is right, a read of nothing
-- is not at the end of the chain, and the new position is within the bytes written.
abbrev pub IsSmooth : Call → ByteArray → Type 0
IsSmooth (writes buf) b = RoundsUp b.base_size (get_capacity b) (length buf)
IsSmooth (reads n) b = OnNode b n
IsSmooth (seeks p) b = p ≤ b.size
IsSmooth clears b = Unit {0}

-- The code ends as the contract says, with the same bytes given back, in a valid array that
-- stands for the file of the contract.
abbrev pub Refines : {A : Type 0} → Result (A × ByteArray) → Result (A × File) → Type 0
Refines (ok r) (ok s) = IsValid r.1 × (r.0 ≡ s.0) × (file r.1 ≡ s.1)
Refines (err e) (err f) = e ≡ f
Refines _ _ = ⊥

pub call-Refines :
    (c : Call) (b : ByteArray) → IsValid b → IsSmooth c b → Refines (call c b) (spec c (file b))
call-Refines (writes buf) b v s =
    let (b', run, w) = write-Written b buf v s in
    rw run (w.valid, refl, λ i. record { bytes = w.contents i; at = w.position i })
call-Refines (reads n) b v s = elim (Bool-cases (ltb (get_read_size b) n)) [
  | inl short ↦ rw (length-contents v, short, (read_fails b n v).0 (ground arith)) refl
  | inr enough ↦
      let (r, run, w) = read-ReadOk b n v (ground arith) s in
      rw (length-contents v, enough, run)
        (w.valid, w.bytes, λ i. record { bytes = w.contents i; at = w.position i })
]
call-Refines (seeks p) b v s =
    let (b', run, m) = (set_position-Moved b p v).0 (omega (arith, v.within)) in
    let same : contents b' ≡ contents b = rw (m.root, m.size) (ground arith) in
    rw run (m.valid, refl, λ i. record { bytes = same i; at = m.position i })
call-Refines clears b v s =
    unfold clear in
    ((clear-IsValid b v).0, refl, λ i. record { bytes = (clear-IsValid b v).1 i; at = 0 })

-- A run of calls, with the bytes that each gave back.
abbrev pub run_all {ℓ} :
    {S : Type ℓ} → (Call → S → Result (List ℕ × S)) → List Call → S → Result (List (List ℕ) × S)
run_all step [] s = ok ([], s)
run_all step (c ∷ cs) s = step c s >>= λ r. run_all step cs r.1 >>= λ q. ok (r.0 ∷ q.0, q.1)

abbrev pub AllSmooth : List Call → ByteArray → Type 0
AllSmooth [] b = Unit {0}
AllSmooth (c ∷ cs) b =
    IsSmooth c b × ((r : List ℕ × ByteArray) → call c b ≡ ok r → AllSmooth cs r.1)

cons-Refines :
    (x : Result (List (List ℕ) × ByteArray)) (y : Result (List (List ℕ) × File)) (a a' : List ℕ)
    → a ≡ a'
    → Refines x y
    → Refines (x >>= λ q. ok (a ∷ q.0, q.1)) (y >>= λ q. ok (a' ∷ q.0, q.1))
cons-Refines (ok r) (ok s) a a' e (v, f, g) = (v, (λ i. e i ∷ f i), g)
cons-Refines (ok r) (err f) a a' e h = absurd h
cons-Refines (err f) (ok s) a a' e h = absurd h
cons-Refines (err f) (err g) a a' e h = h

bind-Refines :
    (x : Result (List ℕ × ByteArray)) (y : Result (List ℕ × File)) (cs : List Call)
    → Refines x y
    → ((r : List ℕ × ByteArray)
        → x ≡ ok r
        → IsValid r.1
        → Refines (run_all call cs r.1) (run_all spec cs (file r.1)))
    → Refines
        (x >>= λ r. run_all call cs r.1 >>= λ q. ok (r.0 ∷ q.0, q.1))
        (y >>= λ r. run_all spec cs r.1 >>= λ q. ok (r.0 ∷ q.0, q.1))
bind-Refines (ok r) (ok s) cs (v, e, f) next =
    cons-Refines (run_all call cs r.1) (run_all spec cs s.1) r.0 s.0 e (rw (← f) (next r refl v))
bind-Refines (ok r) (err f) cs h next = absurd h
bind-Refines (err f) (ok s) cs h next = absurd h
bind-Refines (err f) (err g) cs h next = h

-- From a valid array, any sequence of write, read, setPosition and clear calls that is smooth
-- at each step (right rounding at a write, a read of nothing not at the end of the chain, a
-- new position within the bytes written) gives back the bytes, or the exception, of a plain
-- byte file with a position, and ends in a valid array that stands for that file.
pub run_all-Refines :
    (cs : List Call) (b : ByteArray)
    → IsValid b
    → AllSmooth cs b
    → Refines (run_all call cs b) (run_all spec cs (file b))
run_all-Refines [] b v s = (v, refl, refl)
run_all-Refines (c ∷ cs) b v s =
    bind-Refines (call c b) (spec c (file b)) cs (call-Refines c b v s.0)
      (λ r e valid. run_all-Refines cs r.1 valid (s.1 r e))
