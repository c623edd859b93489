-- ===== src/Http/PoolCalls.antt =====
-- The pool of myhttp/http/http_connection.cpp over any getConnection and ReleasePtr calls.
use http_practice.Prelude.{
  ℕ, zero, suc, ◌+◌, ◌≡◌, ap, sym, ◌∙◌, Bool, List, [], ◌∷◌, Option, none, some, arith, length,
  Option-cases, inl, inr,
}
use http_practice.Http.Pool.{HttpConnection, HttpConnectionPool, Dial, get_connection, release_ptr}
use http_practice.Http.Pooling.{
  Counted, WithinLimit, given, get_connection-Got, release_ptr-Counted,
}

-- A call of the pool: a getConnection, or the release of one of the connections that are out, whose
-- state is the pool's to change.
pub data Call : Type 0 where
  gets : (ℕ → Bool) → ℕ → Dial → Call
  releases : (ℕ → Bool) → ℕ → ℕ → Call

-- The pool with the connections that are out.
abbrev pub World : Type 0
World = HttpConnectionPool × List HttpConnection

abbrev pub held : Option HttpConnection → List HttpConnection → List HttpConnection
held none outs = outs
held (some c) outs = c ∷ outs

abbrev put_back :
    HttpConnection
    → Option (HttpConnection × List HttpConnection)
    → Option (HttpConnection × List HttpConnection)
put_back c none = none
put_back c (some r) = some (r.0, c ∷ r.1)

-- The connection at an index, with the others.
abbrev pub removed_at : List HttpConnection → ℕ → Option (HttpConnection × List HttpConnection)
removed_at [] i = none
removed_at (c ∷ cs) zero = some (c, cs)
removed_at (c ∷ cs) (suc i) = put_back c (removed_at cs i)

abbrev pub released : Option (HttpConnection × List HttpConnection) → (ℕ → Bool) → ℕ → World → World
released none connected now w = w
released (some r) connected now w = (release_ptr connected now r.0 w.0, r.1)

abbrev pub pool_call : Call → World → World
pool_call (gets connected now dial) w =
    let r = get_connection connected now dial w.0 in (r.1, held r.0 w.1)
pool_call (releases connected now i) w = released (removed_at w.1 i) connected now w

abbrev pub pool_calls : List Call → World → World
pool_calls [] w = w
pool_calls (c ∷ cs) w = pool_calls cs (pool_call c w)

abbrev pub IsAccounted : World → Type 0
IsAccounted w = Counted (length w.1) w.0 × WithinLimit w.0

length-held :
    (o : Option HttpConnection) (outs : List HttpConnection)
    → length (held o outs) ≡ length outs + given o
length-held none outs = omega arith
length-held (some c) outs = omega arith

length-removed_at :
    (cs : List HttpConnection) (i : ℕ) (r : HttpConnection × List HttpConnection)
    → removed_at cs i ≡ some r
    → length cs ≡ suc (length r.1)
length-removed_at [] i r e = absurd (ground (arith, e))
length-removed_at (c ∷ cs) zero r e =
    ap
      (λ (o : Option (HttpConnection × List HttpConnection)). elim o [
        | none ↦ suc (length cs)
        | some q ↦ suc (length q.1)
      ])
      e
length-removed_at (c ∷ cs) (suc i) r e = elim (Option-cases (removed_at cs i)) [
  | inl x ↦ absurd (ground (arith, sym (ap (put_back c) x) ∙ e))
  | inr (q, x) ↦
      let step = length-removed_at cs i q x in
      let there : some (q.0, c ∷ q.1) ≡ some r = sym (ap (put_back c) x) ∙ e in
      omega (
        arith,
        step,
        ap {B = ℕ}
            (λ (o : Option (HttpConnection × List HttpConnection)). elim o [
              | none ↦ 0
              | some u ↦ length u.1
            ])
            there,
      )
]

pool_call-IsAccounted : (c : Call) (w : World) → IsAccounted w → IsAccounted (pool_call c w)
pool_call-IsAccounted (gets connected now dial) w (h, k) =
    let g = get_connection-Got connected now dial (length w.1) w.0 h k in
    let r = get_connection connected now dial w.0 in
    (omega (arith, g.counted, length-held r.0 w.1), g.within)
pool_call-IsAccounted (releases connected now i) w (h, k) = elim (Option-cases (removed_at w.1 i)) [
  | inl x ↦ rw x ((h, k))
  | inr (r, x) ↦
      let n = length-removed_at w.1 i r x in
      let a = release_ptr-Counted connected now r.0 (length r.1) w.0 (omega (arith, h, n)) k in
      rw x ((a.0, a.1.0))
]

-- Any sequence of getConnection calls and releases of connections that are out keeps m_total,
-- modulo 2^32, at the number of the idle connections and those that are out, and keeps no idle
-- connection that was used more than max_request times.
pub pool_calls-IsAccounted :
    (cs : List Call) (w : World) → IsAccounted w → IsAccounted (pool_calls cs w)
pool_calls-IsAccounted [] w h = h
pool_calls-IsAccounted (c ∷ cs) w h =
    pool_calls-IsAccounted cs (pool_call c w) (pool_call-IsAccounted c w h)
