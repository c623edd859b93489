-- ===== src/Scheduler/Picking.antt =====
-- What a thread of `Scheduler::run` picks from the queue of myhttp/scheduler.cpp.
use http_practice.Prelude.{
  ℕ, ◌≡◌, refl, ap, ◌∙◌, Bool, true, false, ◌||◌, List, [], ◌∷◌, ◌++◌, none, some, ◌⊎◌, inl, inr,
  Bool-cases,
}
use http_practice.Prelude.Splice.{All}
use http_practice.Prelude.Results.{Returns}
use http_practice.Scheduler.Queue.{
  Fibers, FiberAndThread, is_task, is_elsewhere, runs_now, Picked, behind, tickled, pick,
}

-- A task of another thread, or one whose fiber some thread runs.
abbrev pub is_passed : Fibers → ℕ → FiberAndThread → Bool
is_passed fs tid t = is_elsewhere t.thread tid || runs_now t.fiber fs

abbrev pub any_elsewhere : ℕ → List FiberAndThread → Bool
any_elsewhere tid [] = false
any_elsewhere tid (t ∷ q) = is_elsewhere t.thread tid || any_elsewhere tid q

-- The pick takes the first task that the thread may run; those before it stay in their order.
pub record IsPick (fs : Fibers) (tid : ℕ) (q : List FiberAndThread) (r : Picked) : Type 0 where
  pub before : List FiberAndThread
  pub passed : All (λ (t : FiberAndThread). is_passed fs tid t ≡ true) before
  pub tickle : r.1.1 ≡ any_elsewhere tid before
  pub taken :
      ((r.0 ≡ none) × ((q ≡ before) × (r.1.0 ≡ q)))
      ⊎ ((t : FiberAndThread) × (after : List FiberAndThread) × ((r.0 ≡ some t)
            × ((q ≡ before ++ (t ∷ after))
                × ((r.1.0 ≡ before ++ after)
                    × ((is_passed fs tid t ≡ false) × (is_task t ≡ true))))))

IsPick-behind :
    (fs : Fibers) (tid : ℕ) (t : FiberAndThread) (q : List FiberAndThread) (r r' : Picked)
    → is_passed fs tid t ≡ true
    → r'.0 ≡ r.0
    → r'.1.0 ≡ t ∷ r.1.0
    → r'.1.1 ≡ (is_elsewhere t.thread tid || r.1.1)
    → IsPick fs tid q r
    → IsPick fs tid (t ∷ q) r'
IsPick-behind fs tid t q r r' h e0 e1 e2 p = record {
  before = t ∷ p.before;
  passed = (h, p.passed);
  tickle = e2 ∙ ap (◌||◌ (is_elsewhere t.thread tid)) p.tickle;
  taken = elim p.taken [
    | inl (a, (b, c)) ↦ inl (e0 ∙ a, (ap (◌∷◌ t) b, e1 ∙ ap (◌∷◌ t) c))
    | inr (u, after, (a, (b, (c, d)))) ↦
        inr (u, after, (e0 ∙ a, (ap (◌∷◌ t) b, (e1 ∙ ap (◌∷◌ t) c, d))))
  ];
}

-- A pick from a queue of tasks ends normally; it takes the first task that is not bound to
-- another thread and whose fiber does not run, or none if there is none; the tasks before it
-- stay in the queue in their order, and tickle_me says whether one of them is bound to another
-- thread.
pub pick-IsPick :
    (fs : Fibers) (tid : ℕ) (q : List FiberAndThread)
    → All (λ (t : FiberAndThread). is_task t ≡ true) q
    → Returns (pick fs tid q) (IsPick fs tid q)
unfolding pick
pick-IsPick fs tid [] h = (
  (none, ([], false)),
  refl,
  record { before = []; passed = tt; tickle = refl; taken = inl (refl, (refl, refl)) },
)
pick-IsPick fs tid (t ∷ q) (h, hs) =
    let (r, e, p) = pick-IsPick fs tid q hs in
    elim (Bool-cases (is_elsewhere t.thread tid)) [
      | inl x ↦ (
        tickled (behind t r),
        rw (x, e) refl,
        IsPick-behind fs tid t q r (tickled (behind t r)) (rw x refl) refl refl (rw x refl) p,
      )
      | inr x ↦ elim (Bool-cases (runs_now t.fiber fs)) [
        | inl y ↦ (
          behind t r,
          rw (x, h, y, e) refl,
          IsPick-behind fs tid t q r (behind t r) (rw (x, y) refl) refl refl (rw x refl) p,
        )
        | inr y ↦ (
          (some t, (q, false)),
          rw (x, h, y) refl,
          record {
            before = [];
            passed = tt;
            tickle = refl;
            taken = inr (t, q, (refl, (refl, (refl, (rw (x, y) refl, h)))));
          },
        )
      ]
    ]
