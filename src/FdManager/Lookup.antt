-- ===== src/FdManager/Lookup.antt =====
-- `FdManager::get` of myhttp/fd_manager.cpp: the table keeps its size.
use http_practice.Prelude.{
  ℕ, ◌≤◌, ◌<◌, ◌≡◌, refl, ap, ◌∙◌, sym, Bool, true, false, List, [], ◌∷◌, Option, none, some, arith,
  length, get_elem?, set, inl, inr, Option-cases, length-set, length-replicate, get_elem?-set_self,
  suc, zero,
}
use http_practice.Prelude.Int.{ℤ, pos, negsuc}
use http_practice.Prelude.Results.{Result, ok, err, out_of_bounds, ◌>>=◌, Returns}
use http_practice.FdManager.Contexts.{
  Descriptor, FdCtx, FdManager, new_fd_manager, new_fd_ctx, looked, get, del,
}

pub get_elem?-beyond : (m : FdManager) (fd : ℕ) → length m ≤ fd → get_elem? m fd ≡ none
get_elem?-beyond [] fd h = refl
get_elem?-beyond (x ∷ xs) zero h = absurd (omega arith)
get_elem?-beyond (x ∷ xs) (suc fd) h = get_elem?-beyond xs fd (omega arith)

pub get_elem?-within :
    (m : FdManager) (fd : ℕ) → fd < length m → (e : Option FdCtx) × (get_elem? m fd ≡ some e)
get_elem?-within [] fd h = absurd (omega arith)
get_elem?-within (x ∷ xs) zero h = (x, refl)
get_elem?-within (x ∷ xs) (suc fd) h = get_elem?-within xs fd (omega arith)

-- The context that `get` gives, with the table that holds it and is as long as before.
pub record Got (d : Descriptor) (fd : ℕ) (m : FdManager) (r : Option FdCtx × FdManager)
    : Type 0 where
  pub ctx : FdCtx
  pub given : r.0 ≡ some ctx
  pub held : get_elem? r.1 fd ≡ some (some ctx)
  pub size : length r.1 ≡ length m

-- get with auto_create of a descriptor within the table ends normally and gives a context,
-- which the table then holds for the descriptor; the size of the table stays.
pub get-Got :
    (d : Descriptor) (fd : ℕ) (m : FdManager)
    → fd < length m
    → Returns (get d (pos fd) true m) (Got d fd m)
unfolding get
get-Got d fd m h =
    let (e, at) = get_elem?-within m fd h in
    elim (Option-cases e) [
      | inr (ctx, q) ↦
          let at' : get_elem? m fd ≡ some (some ctx) = at ∙ ap some q in
          (
            (some ctx, m),
            rw (get, at') refl,
            record { ctx = ctx; given = refl; held = at'; size = refl },
          )
      | inl q ↦
          let at' : get_elem? m fd ≡ some none = at ∙ ap some q in
          let ctx = (new_fd_ctx d (pos fd)).0 in
          (
            (some ctx, set m fd (some ctx)),
            rw (get, at') refl,
            record {
              ctx = ctx;
              given = refl;
              held = get_elem?-set_self m fd (some ctx) h;
              size = length-set m fd (some ctx);
            },
          )
    ]

pub data Call : Type 0 where
  gets : Descriptor → ℤ → Bool → Call
  dels : ℤ → Call

abbrev pub call : Call → FdManager → Result FdManager
call (gets d fd auto_create) m = get d fd auto_create m >>= λ r. ok r.1
call (dels fd) m = ok (del fd m)

abbrev pub calls_in : List Call → FdManager → Result FdManager
calls_in [] m = ok m
calls_in (c ∷ cs) m = call c m >>= calls_in cs

-- A run that ends normally leaves a table of `n` entries.
abbrev Keeps : {A : Type 0} → ℕ → Result (A × FdManager) → Type 0
Keeps n (ok r) = length r.1 ≡ n
Keeps n (err f) = Unit {0}

looked-Keeps :
    (d : Descriptor) (fd : ℕ) (auto_create : Bool) (e : Option (Option FdCtx)) (m : FdManager)
    → Keeps (length m) (looked d fd auto_create e m)
looked-Keeps d fd true none m = tt
looked-Keeps d fd false none m = refl
looked-Keeps d fd true (some (some ctx)) m = refl
looked-Keeps d fd false (some (some ctx)) m = refl
looked-Keeps d fd false (some none) m = refl
looked-Keeps d fd true (some none) m = length-set m fd (some (new_fd_ctx d (pos fd)).0)

get-Keeps :
    (d : Descriptor) (fd : ℤ) (auto_create : Bool) (m : FdManager)
    → Keeps (length m) (get d fd auto_create m)
unfolding get
get-Keeps d (pos fd) auto_create m = looked-Keeps d fd auto_create (get_elem? m fd) m
get-Keeps d (negsuc zero) auto_create m = refl
get-Keeps d (negsuc (suc n)) auto_create m = tt

ran :
    (r : Result (Option FdCtx × FdManager)) (n : ℕ) (cs : List Call) (m' : FdManager)
    → Keeps n r
    → ((m : FdManager) → length m ≡ n → calls_in cs m ≡ ok m' → length m' ≡ n)
    → ((r >>= λ q. ok q.1) >>= calls_in cs) ≡ ok m'
    → length m' ≡ n
ran (ok q) n cs m' k next run = next q.1 k run
ran (err f) n cs m' k next run =
    absurd (elim-err (ap (λ (t : Result FdManager). elim t [ ok x ↦ true | err g ↦ false ]) run))
  where
    elim-err : false ≡ true → ⊥
    elim-err e = ground (arith, e)

calls_in-size :
    (cs : List Call) (n : ℕ) (m m' : FdManager)
    → length m ≡ n
    → calls_in cs m ≡ ok m'
    → length m' ≡ n
calls_in-size [] n m m' h run =
    ap (λ (t : Result FdManager). elim t [ ok x ↦ length x | err g ↦ n ]) (sym run) ∙ h
calls_in-size (dels fd ∷ cs) n m m' h run = calls_in-size cs n m m' h run
calls_in-size (gets d fd auto_create ∷ cs) n m m' h run =
    ran (get d fd auto_create m) n cs m' (rw (← h) (get-Keeps d fd auto_create m))
      (λ p k. calls_in-size cs n p m' k) run

-- From a new manager, after any get and del calls that end normally, get with auto_create of a
-- descriptor of 64 or more assigns beyond the table, and without auto_create gives null.
pub get-beyond :
    (cs : List Call) (m : FdManager) (d : Descriptor) (fd : ℕ)
    → calls_in cs new_fd_manager ≡ ok m
    → 64 ≤ fd
    → (get d (pos fd) true m ≡ err out_of_bounds) × (get d (pos fd) false m ≡ ok (none, m))
unfolding get
get-beyond cs m d fd run h =
    let size =
      calls_in-size cs 64 new_fd_manager m (length-replicate {A = Option FdCtx} 64 none) run in
    let out = get_elem?-beyond m fd (omega (arith, size)) in
    (rw (get, out) refl, rw (get, out) refl)
