-- ===== src/IoManager/Invariant.antt =====
-- The invariant of the event table of myhttp/iomanager.cpp.
use http_practice.Prelude.{
  ℕ, suc, zero, ◌+◌, ◌≤◌, ◌<◌, ◌≡◌, ◌≢◌, refl, ap, ◌∙◌, sym, Bool, true, false, List, [], ◌∷◌,
  Option, none, some, arith, length, get_elem?, set, ◌==◌, if◌then◌else◌, inl, inr, Bool-cases,
  length-set, get_elem?-set_self, get_elem?-set_ne,
}
use http_practice.IoManager.Table.{
  Mask, is_none, FdContext, CtlOp, ctl_add, ctl_del, EpollCtl, IoManager, Task,
}
use http_practice.IoManager.Ops.{commit}
use http_practice.IoManager.Context.{Consistent, weight}

abbrev pub total : List FdContext → ℕ
total [] = 0
total (c ∷ cs) = weight c + total cs

-- What the kernel watches of a descriptor after the calls, by the manual of `epoll_ctl`.
abbrev pub interest : List EpollCtl → ℕ → Option Mask
interest [] fd = none
interest (k ∷ ks) fd =
    if fd == k.fd then elim k.op [ ctl_del ↦ none | _ ↦ some k.mask ] else interest ks fd

-- ADD is for a descriptor that is not watched, MOD and DEL for one that is.
abbrev pub op_fits : CtlOp → Option Mask → Bool
op_fits ctl_add none = true
op_fits ctl_add (some s) = false
op_fits _ none = false
op_fits _ (some s) = true

abbrev pub Allowed : List EpollCtl → Type 0
Allowed [] = Unit {0}
Allowed (k ∷ ks) = (op_fits k.op (interest ks k.fd) ≡ true) × Allowed ks

-- What the table says that the kernel watches.
abbrev pub watched : Option FdContext → Option Mask
watched none = none
watched (some c) = if is_none c.events then none else some c.events

pub record IsValid (m : IoManager) : Type 0 where
  pub roomy : 32 ≤ length m.fd_contexts
  pub consistent : (fd : ℕ) (c : FdContext) → get_elem? m.fd_contexts fd ≡ some c → Consistent c
  pub counted : m.pending ≡ total m.fd_contexts
  pub told : (fd : ℕ) → interest m.ctls fd ≡ watched (get_elem? m.fd_contexts fd)
  pub allowed : Allowed m.ctls

pub total-set :
    (cs : List FdContext) (fd : ℕ) (c c' : FdContext)
    → get_elem? cs fd ≡ some c
    → total (set cs fd c') + weight c ≡ total cs + weight c'
total-set [] fd c c' e = absurd (ground (arith, e))
total-set (x ∷ xs) zero c c' e =
    let same : weight x ≡ weight c =
      ap (λ (o : Option FdContext). elim o [ some y ↦ weight y | none ↦ 0 ]) e in
    omega (arith, same)
total-set (x ∷ xs) (suc fd) c c' e = omega (arith, total-set xs fd c c' e)

pub weight-total :
    (cs : List FdContext) (fd : ℕ) (c : FdContext) → get_elem? cs fd ≡ some c → weight c ≤ total cs
weight-total [] fd c e = absurd (ground (arith, e))
weight-total (x ∷ xs) zero c e =
    let same : weight x ≡ weight c =
      ap (λ (o : Option FdContext). elim o [ some y ↦ weight y | none ↦ 0 ]) e in
    omega (arith, same)
weight-total (x ∷ xs) (suc fd) c e = omega (arith, weight-total xs fd c e)

pub get_elem?-inside :
    (cs : List FdContext) (fd : ℕ) (c : FdContext) → get_elem? cs fd ≡ some c → fd < length cs
get_elem?-inside [] fd c e = absurd (ground (arith, e))
get_elem?-inside (x ∷ xs) zero c e = omega arith
get_elem?-inside (x ∷ xs) (suc fd) c e = omega (arith, get_elem?-inside xs fd c e)

pub some-inj : {c c' : FdContext} → some c ≡ some c' → c ≡ c'
some-inj {c} e = ap (λ (o : Option FdContext). elim o [ some y ↦ y | none ↦ c ]) e

watched-some : (o : Option FdContext) (c : FdContext) → o ≡ some c → watched o ≡ watched (some c)
watched-some o c e = rw e refl

-- An operation that `epoll_ctl` took, on a context `c` that becomes `c'`.
pub commit-IsValid :
    (m : IoManager) (fd : ℕ) (op : CtlOp) (mask : Mask) (c c' : FdContext) (pending : ℕ)
    (tasks : List (ℕ × Task))
    → IsValid m
    → get_elem? m.fd_contexts fd ≡ some c
    → Consistent c'
    → pending + weight c ≡ m.pending + weight c'
    → op_fits op (watched (some c)) ≡ true
    → elim op [ ctl_del ↦ none | _ ↦ some mask ] ≡ watched (some c')
    → IsValid (commit fd op mask c' pending tasks m)
commit-IsValid m fd op mask c c' pending tasks v at k count fits told =
    let inside = get_elem?-inside m.fd_contexts fd c at in
    let here = get_elem?-set_self m.fd_contexts fd c' inside in
    record {
      roomy = rw (length-set m.fd_contexts fd c') v.roomy;
      consistent = λ i d e. elim (Bool-cases (i == fd)) [
        | inl same ↦
            let q : i ≡ fd = ground arith in
            let w : c' ≡ d =
              some-inj (sym here ∙ (ap (get_elem? (set m.fd_contexts fd c')) (sym q) ∙ e)) in
            rw (← w) k
        | inr other ↦
            let ne : fd ≢ i = ground arith in
            v.consistent i d (sym (get_elem?-set_ne m.fd_contexts c' ne) ∙ e)
      ];
      counted = omega (arith, total-set m.fd_contexts fd c c' at, count, v.counted);
      told = λ i. elim (Bool-cases (i == fd)) [
        | inl same ↦
            let q : i ≡ fd = ground arith in
            rw (same, q)
              (told ∙ sym (watched-some (get_elem? (set m.fd_contexts fd c') fd) c' here))
        | inr other ↦
            let ne : fd ≢ i = ground arith in
            rw (other, get_elem?-set_ne m.fd_contexts c' ne) (v.told i)
      ];
      allowed = (rw (v.told fd, watched-some (get_elem? m.fd_contexts fd) c at) fits, v.allowed);
    }
