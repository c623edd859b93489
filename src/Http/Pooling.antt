-- ===== src/Http/Pooling.antt =====
-- What getConnection and ReleasePtr of myhttp/http/http_connection.cpp do to the pool.
use http_practice.Prelude.{
  ℕ, suc, ◌+◌, ◌%◌, ◌^◌, ◌≡◌, refl, ap, ◌∙◌, Bool, true, false, not, ◌||◌, List, [], ◌∷◌, ◌++◌,
  Option, none, some, arith, ltb, leb, length, length-append, Bool-cases, inl, inr, ◌⊎◌,
}
use http_practice.Prelude.Splice.{All}
use http_practice.Http.Pool.{
  HttpConnection, HttpConnectionPool, Dial, no_address, no_socket, refused, connected_to, minus32,
  Scanned, dropped, is_later, scan, dialled, get_connection, release_ptr,
}

-- The connections that getConnection deletes.
abbrev pub is_bad : (ℕ → Bool) → ℕ → ℕ → HttpConnection → Bool
is_bad connected now alive c = not (connected c.socket) || is_later c alive now

-- The scan splits the idle connections: bad ones before the first good one, and the rest.
pub record IsScan (connected : ℕ → Bool) (now alive : ℕ) (cs : List HttpConnection) (r : Scanned)
    : Type 0 where
  pub bad : All (λ (c : HttpConnection). is_bad connected now alive c ≡ true) r.1.0
  pub split :
      ((r.0 ≡ none) × (cs ≡ r.1.0) × (r.1.1 ≡ []))
      ⊎ ((c : HttpConnection) × (r.0 ≡ some c)
          × (cs ≡ r.1.0 ++ (c ∷ r.1.1))
          × (is_bad connected now alive c ≡ false))

IsScan-dropped :
    (connected : ℕ → Bool) (now alive : ℕ) (c : HttpConnection) (cs : List HttpConnection)
    (r : Scanned)
    → is_bad connected now alive c ≡ true
    → IsScan connected now alive cs r
    → IsScan connected now alive (c ∷ cs) (dropped c r)
IsScan-dropped connected now alive c cs r h i = record {
  bad = (h, i.bad);
  split = elim i.split [
    | inl (a, b, d) ↦ inl (a, ap (◌∷◌ c) b, d)
    | inr (x, a, b, d) ↦ inr (x, a, ap (◌∷◌ c) b, d)
  ];
}

scan-IsScan :
    (connected : ℕ → Bool) (now alive : ℕ) (cs : List HttpConnection)
    → IsScan connected now alive cs (scan connected now alive cs)
scan-IsScan connected now alive [] = record { bad = tt; split = inl (refl, refl, refl) }
scan-IsScan connected now alive (c ∷ cs) =
    let next = scan-IsScan connected now alive cs in
    let r = scan connected now alive cs in
    elim (Bool-cases (connected c.socket)) [
      | inr x ↦ rw x (IsScan-dropped connected now alive c cs r (rw x refl) next)
      | inl x ↦ elim (Bool-cases (is_later c alive now)) [
        | inl y ↦ rw (x, y) (IsScan-dropped connected now alive c cs r (rw (x, y) refl) next)
        | inr y ↦ rw (x, y) (record { bad = tt; split = inr (c, refl, refl, rw (x, y) refl) })
      ]
    ]

-- `m_total` counts the idle connections and those that are out.
abbrev pub Counted : ℕ → HttpConnectionPool → Type 0
Counted out p = p.total ≡ (length p.conns + out) % 2 ^ 32

-- No idle connection was used more often than it may be.
abbrev pub WithinLimit : HttpConnectionPool → Type 0
WithinLimit p = All (λ (c : HttpConnection). leb c.request p.max_request ≡ true) p.conns

abbrev pub given : Option HttpConnection → ℕ
given none = 0
given (some c) = 1

-- What a getConnection makes of the pool.
pub record Got (out limit : ℕ) (r : Option HttpConnection × HttpConnectionPool) : Type 0 where
  pub counted : Counted (out + given r.0) r.1
  pub within : WithinLimit r.1
  pub same_limit : r.1.max_request ≡ limit

dialled-Got :
    (dial : Dial) (out : ℕ) (p : HttpConnectionPool)
    → Counted out p
    → WithinLimit p
    → Got out p.max_request (dialled dial p)
dialled-Got (connected_to k) out p h w = record {
  counted = omega (arith, h);
  within = w;
  same_limit = refl;
}
dialled-Got no_address out p h w = record {
  counted = omega (arith, h);
  within = w;
  same_limit = refl;
}
dialled-Got no_socket out p h w = record {
  counted = omega (arith, h);
  within = w;
  same_limit = refl;
}
dialled-Got refused out p h w = record { counted = omega (arith, h); within = w; same_limit = refl }

All-append_right :
    (P : HttpConnection → Type 0) (xs ys : List HttpConnection) → All P (xs ++ ys) → All P ys
All-append_right P [] ys h = h
All-append_right P (x ∷ xs) ys (h, hs) = All-append_right P xs ys hs

All-append :
    (P : HttpConnection → Type 0) (xs ys : List HttpConnection)
    → All P xs
    → All P ys
    → All P (xs ++ ys)
All-append P [] ys h k = k
All-append P (x ∷ xs) ys (h, hs) k = (h, All-append P xs ys hs k)

pub get_connection-Got :
    (connected : ℕ → Bool) (now : ℕ) (dial : Dial) (out : ℕ) (p : HttpConnectionPool)
    → Counted out p
    → WithinLimit p
    → Got out p.max_request (get_connection connected now dial p)
unfolding get_connection
get_connection-Got connected now dial out p h w =
    let r = scan connected now p.max_alive_time p.conns in
    let i = scan-IsScan connected now p.max_alive_time p.conns in
    let q = record p { conns = r.1.1; total = minus32 p.total (length r.1.0) } in
    elim i.split [
      | inl (a, b, d) ↦
          rw a (dialled-Got dial out q (omega (arith, h, ap length b, ap length d)) (rw d tt))
      | inr (c, a, b, d) ↦
          let size = ap length b ∙ length-append r.1.0 (c ∷ r.1.1) in
          rw a (record {
            counted = omega (arith, h, size);
            within =
                (All-append_right (λ (x : HttpConnection). leb x.request p.max_request ≡ true) r.1.0
                  (c ∷ r.1.1) (rw (← b) w)).1;
            same_limit = refl;
          })
    ]

pub release_ptr-Counted :
    (connected : ℕ → Bool) (now : ℕ) (c : HttpConnection) (out : ℕ) (p : HttpConnectionPool)
    → Counted (suc out) p
    → WithinLimit p
    → Counted out (release_ptr connected now c p)
      × (WithinLimit (release_ptr connected now c p)
          × ((release_ptr connected now c p).max_request ≡ p.max_request))
unfolding release_ptr
release_ptr-Counted connected now c out p h w =
    let used = (c.request + 1) % 2 ^ 64 in
    let drop =
      not (connected c.socket)
      || (leb now ((c.create_time + p.max_alive_time) % 2 ^ 64) || ltb p.max_request used) in
    elim (Bool-cases drop) [
      | inl x ↦ rw x ((omega (arith, h), (w, refl)))
      | inr x ↦
          let few : leb used p.max_request ≡ true = ground (arith, x) in
          rw x (
            (
              omega (arith, h, length-append p.conns (record c { request = used } ∷ [])),
              (
                All-append (λ (x : HttpConnection). leb x.request p.max_request ≡ true) p.conns
                    (record c { request = used } ∷ []) w (few, tt),
                refl,
              ),
            ))
    ]

-- What getConnection gives.
pub record IsChosen (connected : ℕ → Bool) (now : ℕ) (dial : Dial) (p : HttpConnectionPool)
    (r : Option HttpConnection × HttpConnectionPool) : Type 0 where
  pub bad : List HttpConnection
  pub all_bad : All (λ (c : HttpConnection). is_bad connected now p.max_alive_time c ≡ true) bad
  pub choice :
      ((p.conns ≡ bad) × (r.1.conns ≡ []) × (r.0 ≡ (dialled dial p).0))
      ⊎ ((c : HttpConnection) × (p.conns ≡ bad ++ (c ∷ r.1.conns))
          × (r.0 ≡ some c)
          × (is_bad connected now p.max_alive_time c ≡ false))

chosen-dialled :
    (dial : Dial) (p q : HttpConnectionPool)
    → ((dialled dial q).0 ≡ (dialled dial p).0) × ((dialled dial q).1.conns ≡ q.conns)
chosen-dialled (connected_to k) p q = (refl, refl)
chosen-dialled no_address p q = (refl, refl)
chosen-dialled no_socket p q = (refl, refl)
chosen-dialled refused p q = (refl, refl)

-- getConnection gives the first idle connection that is connected and for which the creation
-- time plus the alive time is not after now, leaves the idle ones behind it and drops those
-- before it; if there is none, it drops all and gives what a new connection attempt gives.
pub get_connection-IsChosen :
    (connected : ℕ → Bool) (now : ℕ) (dial : Dial) (p : HttpConnectionPool)
    → IsChosen connected now dial p (get_connection connected now dial p)
unfolding get_connection
get_connection-IsChosen connected now dial p =
    let r = scan connected now p.max_alive_time p.conns in
    let i = scan-IsScan connected now p.max_alive_time p.conns in
    let q = record p { conns = r.1.1; total = minus32 p.total (length r.1.0) } in
    elim i.split [
      | inl (a, b, d) ↦
          let same = chosen-dialled dial p q in
          rw a (record { bad = r.1.0; all_bad = i.bad; choice = inl (b, same.1 ∙ d, same.0) })
      | inr (c, a, b, d) ↦
          rw a (record { bad = r.1.0; all_bad = i.bad; choice = inr (c, b, refl, d) })
    ]
