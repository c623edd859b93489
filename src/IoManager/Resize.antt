-- ===== src/IoManager/Resize.antt =====
-- `contextResize` of myhttp/iomanager.cpp keeps the invariant, and gives room for a descriptor.
use http_practice.Prelude.{
  ℕ, suc, zero, ◌+◌, ◌-◌, ◌*◌, ◌/◌, ◌≤◌, ◌<◌, ◌≡◌, refl, ◌∙◌, sym, List, [], ◌∷◌, ◌++◌, Option,
  none, some, arith, length, get_elem?, replicate, leb, inl, inr, Bool-cases, length-append,
  length-replicate,
}
use http_practice.IoManager.Table.{read, write, FdContext, new_context, IoManager, new_io_manager}
use http_practice.IoManager.Ops.{room_for}
use http_practice.IoManager.Context.{Consistent}
use http_practice.IoManager.Invariant.{IsValid, total, watched, some-inj}

-- What is read the same of a new context and of none is read the same after a resize.
pub get_elem?-resize {ℓ} :
    {A : Type ℓ} (f : Option FdContext → A) (n : ℕ) (cs : List FdContext) (fd : ℕ)
    → f none ≡ f (some new_context)
    → f (get_elem? (cs ++ replicate n new_context) fd) ≡ f (get_elem? cs fd)
get_elem?-resize f zero [] fd h = refl
get_elem?-resize f (suc n) [] zero h = sym h
get_elem?-resize f (suc n) [] (suc fd) h = get_elem?-resize f n [] fd h
get_elem?-resize f n (c ∷ cs) zero h = refl
get_elem?-resize f n (c ∷ cs) (suc fd) h = get_elem?-resize f n cs fd h

pub new_context-Consistent : Consistent new_context
new_context-Consistent read = refl
new_context-Consistent write = refl

resize-Consistent :
    (n : ℕ) (cs : List FdContext)
    → ((fd : ℕ) (c : FdContext) → get_elem? cs fd ≡ some c → Consistent c)
    → (fd : ℕ) (c : FdContext) → get_elem? (cs ++ replicate n new_context) fd ≡ some c
    → Consistent c
resize-Consistent zero [] h fd c e = absurd (ground (arith, e))
resize-Consistent (suc n) [] h zero c e = rw (← some-inj e) new_context-Consistent
resize-Consistent (suc n) [] h (suc fd) c e = resize-Consistent n [] h fd c e
resize-Consistent n (x ∷ xs) h zero c e = h 0 c e
resize-Consistent n (x ∷ xs) h (suc fd) c e = resize-Consistent n xs (λ i d k. h (suc i) d k) fd c e

total-resize : (n : ℕ) (cs : List FdContext) → total (cs ++ replicate n new_context) ≡ total cs
total-resize zero [] = refl
total-resize (suc n) [] = omega (arith, total-resize n [])
total-resize n (c ∷ cs) = omega (arith, total-resize n cs)

-- The table grows where `fd` is not in it, and has room for it then.
pub room_for-IsValid :
    (fd : ℕ) (m : IoManager)
    → IsValid m
    → IsValid (room_for fd m)
      × ((c : FdContext) × (get_elem? (room_for fd m).fd_contexts fd ≡ some c))
room_for-IsValid fd m v = elim (Bool-cases (leb (length m.fd_contexts) fd)) [
  | inr inside ↦ rw inside (v, get_inside m.fd_contexts fd (ground arith))
  | inl outside ↦
      let n = fd * 3 / 2 - length m.fd_contexts in
      let long : length (m.fd_contexts ++ replicate n new_context) ≡ length m.fd_contexts + n =
        rw (length-append m.fd_contexts (replicate n new_context), length-replicate n new_context)
          refl in
      let small : length m.fd_contexts ≤ fd = ground arith in
      rw outside (
        record {
          roomy = omega (arith, long, v.roomy);
          consistent = resize-Consistent n m.fd_contexts v.consistent;
          counted = v.counted ∙ sym (total-resize n m.fd_contexts);
          told = λ i. v.told i ∙ sym (get_elem?-resize watched n m.fd_contexts i refl);
          allowed = v.allowed;
        },
        get_inside (m.fd_contexts ++ replicate n new_context) fd
            (omega (arith, long, small, v.roomy)),
      )
]
  where
    get_inside :
        (cs : List FdContext) (i : ℕ) → i < length cs → (c : FdContext) × (get_elem? cs i ≡ some c)
    get_inside [] i h = absurd (omega arith)
    get_inside (c ∷ cs) zero h = (c, refl)
    get_inside (c ∷ cs) (suc i) h = get_inside cs i (omega arith)

pub new_io_manager-IsValid : IsValid new_io_manager
new_io_manager-IsValid = record {
  roomy = omega (arith, length-replicate 32 new_context);
  consistent = resize-Consistent 32 [] (λ fd c e. absurd (ground (arith, e)));
  counted = sym (total-resize 32 []);
  told = λ fd. sym (get_elem?-resize watched 32 [] fd refl);
  allowed = tt;
}
