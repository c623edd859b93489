-- ===== src/Timer/Expiring.antt =====
-- The loop of `TimerManager::listExpiredCb` of myhttp/timer.cpp over the timers taken out.
use http_practice.Prelude.{
  ℕ, ◌≡◌, ◌≢◌, refl, ap, ◌∙◌, true, false, ◌&&◌, ◌||◌, List, [], ◌∷◌, Option, none, arith, ◌==◌,
  if◌then◌else◌, Bool-cases, inl, inr, map,
}
use http_practice.Timer.Order.{Callback, Timer, Heap, update}
use http_practice.Timer.Manager.{TimerManager, expire, expire_all, add64}
use http_practice.Timer.Sorted.{elem, Sorted, Sorted-once, insert-elem, insert-Sorted}
use http_practice.Timer.Invariant.{update-Sorted}

-- A timer after it expired: a recurring one is due again an interval from now, another has lost
-- its callback.
abbrev pub rearmed : ℕ → Timer → Timer
rearmed now t = if t.recurring then record t { next = add64 now t.ms } else record t { cb = none }

-- After the timers `ks` expired.
pub record Looped (now : ℕ) (ks : List ℕ) (m m' : TimerManager) : Type 0 where
  pub members :
      (b : ℕ) → elem b m'.timers ≡ (elem b m.timers || (elem b ks && (m.heap b).recurring))
  pub heap : (b : ℕ) → m'.heap b ≡ (if elem b ks then rearmed now (m.heap b) else m.heap b)
  pub sorted : Sorted m'.heap m'.timers
  pub tickled : m'.tickled ≡ m.tickled
  pub previous_time : m'.previous_time ≡ m.previous_time
  pub wakeups : m'.wakeups ≡ m.wakeups

expire-Looped :
    (now a : ℕ) (m : TimerManager)
    → Sorted m.heap m.timers
    → elem a m.timers ≡ false
    → Looped now (a ∷ []) m (expire now a m)
expire-Looped now a m h out = elim (Bool-cases (m.heap a).recurring) [
  | inl again ↦
      let t = record (m.heap a) { recurring = true; next = add64 now (m.heap a).ms } in
      let heap = update m.heap a t in
      rw (expire, again)
        record {
          members = λ b. elim (Bool-cases (b == a)) [
            | inl same ↦
                let e : b ≡ a = ground arith in
                rw e (ground (arith, insert-elem heap a a m.timers, again))
            | inr other ↦ ground (arith, insert-elem heap a b m.timers)
          ];
          heap = λ b. elim (Bool-cases (b == a)) [
            | inl same ↦ let e : b ≡ a = ground arith in rw (e, again) (ground arith)
            | inr other ↦ ground arith
          ];
          sorted = insert-Sorted heap a m.timers (update-Sorted m.heap a t m.timers out h);
          tickled = refl;
          previous_time = refl;
          wakeups = refl;
        }
  | inr last ↦
      let t = record (m.heap a) { recurring = false; cb = none } in
      rw (expire, last)
        record {
          members = λ b. elim (Bool-cases (b == a)) [
            | inl same ↦ let e : b ≡ a = ground arith in rw (e, last) (ground arith)
            | inr other ↦ ground arith
          ];
          heap = λ b. elim (Bool-cases (b == a)) [
            | inl same ↦ let e : b ≡ a = ground arith in rw (e, last) (ground arith)
            | inr other ↦ ground arith
          ];
          sorted = update-Sorted m.heap a t m.timers out h;
          tickled = refl;
          previous_time = refl;
          wakeups = refl;
        }
]

not_same : (b a : ℕ) → b ≢ a → (b == a) ≡ false
not_same b a h = ground arith

map-agree :
    (f g : ℕ → Option Callback) (s : List ℕ)
    → ((b : ℕ) → elem b s ≡ true → f b ≡ g b)
    → map f s ≡ map g s
map-agree f g [] h = refl
map-agree f g (x ∷ xs) h =
    rw (h x (ground arith), map-agree f g xs (λ b i. h b (ground arith))) refl

abbrev Apart : List ℕ → List ℕ → Type 0
Apart ks s = (b : ℕ) → elem b ks ≡ true → elem b s ≡ false

-- One timer, then the others.
both-Looped :
    (now a : ℕ) (ks : List ℕ) (m m' m'' : TimerManager)
    → elem a ks ≡ false
    → Looped now (a ∷ []) m m'
    → Looped now ks m' m''
    → Looped now (a ∷ ks) m m''
both-Looped now a ks m m' m'' once one rest = record {
  members = λ b. elim (Bool-cases (b == a)) [
    | inl same ↦
        let e : b ≡ a = ground arith in rw e (ground (arith, rest.members a, one.members a, once))
    | inr other ↦
        let same : m'.heap b ≡ m.heap b = one.heap b ∙ rw other refl in
        let f = ap (λ (t : Timer). t.recurring) same in
        ground (arith, rest.members b, one.members b, f)
  ];
  heap = λ b. elim (Bool-cases (b == a)) [
    | inl same ↦
        let e : b ≡ a = ground arith in
        let f : m'.heap b ≡ rearmed now (m.heap b) = one.heap b ∙ rw same refl in
        let g : m''.heap b ≡ m'.heap b = rest.heap b ∙ rw (e, once) refl in rw same (g ∙ f)
    | inr other ↦
        let f : m'.heap b ≡ m.heap b = one.heap b ∙ rw other refl in rw (other, ← f) (rest.heap b)
  ];
  sorted = rest.sorted;
  tickled = rest.tickled ∙ one.tickled;
  previous_time = rest.previous_time ∙ one.previous_time;
  wakeups = rest.wakeups ∙ one.wakeups;
}

-- The loop gives the callbacks as they were, in order, and rearms each timer once.
pub expire_all-Looped :
    (now : ℕ) (heap : Heap) (ks : List ℕ) (m : TimerManager)
    → Sorted heap ks
    → Apart ks m.timers
    → Sorted m.heap m.timers
    → ((expire_all now ks m).0 ≡ map (λ a. (m.heap a).cb) ks)
      × Looped now ks m (expire_all now ks m).1
expire_all-Looped now heap [] m hs apart h = (
  refl,
  record {
    members = λ b. ground arith;
    heap = λ b. refl;
    sorted = h;
    tickled = refl;
    previous_time = refl;
    wakeups = refl;
  },
)
expire_all-Looped now heap (a ∷ ks) m hs apart h =
    let one = expire-Looped now a m h (apart a (ground arith)) in
    let once = Sorted-once heap a ks hs in
    let still : (b : ℕ) → elem b ks ≡ true → b ≢ a =
      λ b i e. absurd (let f : elem a ks ≡ true = rw (← e) i in ground (arith, once, f)) in
    let untouched : (b : ℕ) → elem b ks ≡ true → (expire now a m).heap b ≡ m.heap b =
      λ b i. one.heap b ∙ rw (not_same b a (still b i)) refl in
    let (cbs, rest) =
      expire_all-Looped now heap ks (expire now a m) hs.1
        (λ b i. let n = still b i in ground (arith, one.members b, apart b)) one.sorted in
    (
      ap {B = List (Option Callback)} (λ (t : List (Option Callback)). (m.heap a).cb ∷ t)
          (cbs
            ∙ map-agree (λ b. ((expire now a m).heap b).cb) (λ b. (m.heap b).cb) ks
                (λ b i. ap (λ (t : Timer). t.cb) (untouched b i))),
      both-Looped now a ks m (expire now a m) (expire_all now ks (expire now a m)).1 once one rest,
    )
