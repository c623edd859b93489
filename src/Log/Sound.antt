-- ===== src/Log/Sound.antt =====
-- The log of myhttp/log.cpp over its calls: from the manager's start every state is ready.
use http_practice.Prelude.{
  ℕ, zero, suc, ◌≡◌, refl, sym, ap, ◌∙◌, Bool, true, false, ◌&&◌, List, [], ◌∷◌, ◌++◌, Option, none,
  some, arith, if◌then◌else◌, length, get_elem?, set, inl, inr, Bool-cases, Option-cases,
}
use http_practice.Prelude.Results.{Result, ok, err, ◌>>=◌, After, After-bind}
use http_practice.Prelude.Text.{Bytes, less_bytes, eq_bytes_eq}
use http_practice.Prelude.SortedMap.{find, same, find-assign}
use http_practice.Prelude.Keys.{by_bytes, same-eq_bytes}
use http_practice.Log.Pattern.{LogFormatter, new_formatter}
use http_practice.Log.Levels.{Level}
use http_practice.Log.Appenders.{Appender}
use http_practice.Log.Loggers.{
  Logger, Logging, new_logger, deref, with_logger, name_of, set_level, clear_appenders, set_pattern,
  with_formatter, formatter_given, add_appender, drop_appender, del_appender, found_or_new,
  get_logger, new_appender,
}
use http_practice.Log.Ready.{
  is_set, has_formatter, all_formatted, logger_ready, all_ready, all_ready-at, IsReady, is_top,
  SameFormatters, Kept, all_ready-alike,
}
use http_practice.Log.Tables.{
  all_ready-More, all_ready-set, all_ready-append, is_top-set, is_top-append, More-append, More-set,
  has_formatter-set_self,
}

-- Each name leads to a logger of that name.
abbrev pub IsNamed : Logging → Type 0
IsNamed s = (n : Bytes) (h : ℕ) → find less_bytes n s.named ≡ some h → name_of s.loggers h ≡ ok n

abbrev pub IsSound : Logging → Type 0
IsSound s = IsReady s × IsNamed s

name_of-set :
    (ls : List Logger) (h q : ℕ) (l m : Logger)
    → get_elem? ls h ≡ some l
    → m.name ≡ l.name
    → name_of (set ls h m) q ≡ name_of ls q
name_of-set [] h q l m x y = refl
name_of-set (k ∷ ls) zero zero l m x y =
    ap ok y ∙ ap {B = Result Bytes} (λ o. deref o >>= λ v. ok v.name) (sym x)
name_of-set (k ∷ ls) zero (suc q) l m x y = refl
name_of-set (k ∷ ls) (suc h) zero l m x y = refl
name_of-set (k ∷ ls) (suc h) (suc q) l m x y = name_of-set ls h q l m x y

name_of-append :
    (ls : List Logger) (l : Logger) (q : ℕ) (n : Bytes)
    → name_of ls q ≡ ok n
    → name_of (ls ++ l ∷ []) q ≡ ok n
name_of-append [] l q n x = absurd (ground (arith, x))
name_of-append (k ∷ ls) l zero n x = x
name_of-append (k ∷ ls) l (suc q) n x = name_of-append ls l q n x

pub name_of_last : (ls : List Logger) (l : Logger) → name_of (ls ++ l ∷ []) (length ls) ≡ ok l.name
name_of_last [] l = refl
name_of_last (k ∷ ls) l = name_of_last ls l

ready_at :
    (s : Logging) (h : ℕ) (l : Logger)
    → IsReady s
    → get_elem? s.loggers h ≡ some l
    → logger_ready s.all_appenders s.root l ≡ true
ready_at s h l r = all_ready-at s.all_appenders s.root s.loggers h l (ground (arith, r))

IsReady-set :
    (cs : List Appender) (root h : ℕ) (ls : List Logger) (l m : Logger)
    → (all_ready cs root ls && is_top (get_elem? ls root)) ≡ true
    → get_elem? ls h ≡ some l
    → logger_ready cs root m ≡ true
    → m.root_logger ≡ l.root_logger
    → (all_ready cs root (set ls h m) && is_top (get_elem? (set ls h m) root)) ≡ true
IsReady-set cs root h ls l m r e x y =
    rw (all_ready-set cs root ls h m (ground (arith, r)) x)
      (is_top-set ls h root l m e y ∙ ground (arith, r))

-- A call that changes one logger, but not its name, nor what it stands on.
with_logger-IsSound :
    (h : ℕ) (f : Logger → Logger) (s : Logging)
    → ((l : Logger)
        → logger_ready s.all_appenders s.root l ≡ true
        → logger_ready s.all_appenders s.root (f l) ≡ true)
    → ((l : Logger) → (f l).root_logger ≡ l.root_logger)
    → ((l : Logger) → (f l).name ≡ l.name)
    → IsSound s
    → After IsSound (with_logger h f s)
with_logger-IsSound h f s g x y (r, n) = elim (Option-cases (get_elem? s.loggers h)) [
  | inl e ↦ rw e tt
  | inr (l, e) ↦ rw e (
      (
        IsReady-set s.all_appenders s.root h s.loggers l (f l) r e (g l (ready_at s h l r e)) (x l),
        λ m q c. name_of-set s.loggers h q l (f l) e (y l) ∙ n m q c,
      ))
]

After-if :
    (b : Bool) (P : Logging → Type 0) (x y : Result Logging)
    → After P x
    → After P y
    → After P (if b then x else y)
After-if true P x y h k = h
After-if false P x y h k = k

pub deref-some : {A : Type 0} (o : Option A) (a : A) → deref o ≡ ok a → o ≡ some a
deref-some none a h = absurd (ground (arith, h))
deref-some (some b) a h = ap (λ r. elim r [ ok x ↦ some x | err e ↦ none ]) h

pub set_level-IsSound :
    (h : ℕ) (val : Level) (s : Logging) → IsSound s → After IsSound (set_level h val s)
unfolding set_level
set_level-IsSound h val s =
    with_logger-IsSound h (λ l. record l { level = val }) s (λ l k. k) (λ l. refl) (λ l. refl)

pub clear_appenders-IsSound :
    (h : ℕ) (s : Logging) → IsSound s → After IsSound (clear_appenders h s)
unfolding clear_appenders
clear_appenders-IsSound h s =
    with_logger-IsSound h (λ l. record l { appenders = [] }) s (λ l k. ground (arith, k))
      (λ l. refl) (λ l. refl)

pub set_pattern-IsSound :
    (h : ℕ) (val : Bytes) (s : Logging) → IsSound s → After IsSound (set_pattern h val s)
unfolding set_pattern
set_pattern-IsSound h val s k = After-if (new_formatter val).is_error IsSound (ok s) _ k (
    with_logger-IsSound h (λ l. record l { formatter = some (new_formatter val) }) s
      (λ l c. ground (arith, c)) (λ l. refl) (λ l. refl) k)

all_formatted-drop_appender :
    (cs : List Appender) (p : ℕ) (ps : List ℕ)
    → all_formatted cs ps ≡ true
    → all_formatted cs (drop_appender p ps) ≡ true
all_formatted-drop_appender cs p [] h = h
all_formatted-drop_appender cs p (q ∷ ps) h =
    ground (arith, h, all_formatted-drop_appender cs p ps (ground (arith, h)))

pub del_appender-IsSound : (h p : ℕ) (s : Logging) → IsSound s → After IsSound (del_appender h p s)
unfolding del_appender
del_appender-IsSound h p s =
    with_logger-IsSound h (λ l. record l { appenders = drop_appender p l.appenders }) s
      (λ l k. ground (arith, k, all_formatted-drop_appender s.all_appenders p l.appenders))
      (λ l. refl) (λ l. refl)

pub new_appender-IsSound : (a : Appender) (s : Logging) → IsSound s → IsSound (new_appender a s).0
new_appender-IsSound a s (r, n) = (
  ground (
    arith,
    r,
    all_ready-More s.all_appenders (s.all_appenders ++ a ∷ []) s.root s.loggers
        (More-append s.all_appenders a),
  ),
  n,
)

all_formatted-append :
    (cs : List Appender) (ps : List ℕ) (p : ℕ)
    → all_formatted cs (ps ++ p ∷ []) ≡ (all_formatted cs ps && has_formatter (get_elem? cs p))
all_formatted-append cs [] p = ground arith
all_formatted-append cs (q ∷ ps) p = ground (arith, all_formatted-append cs ps p)

with_formatter-is_set :
    (o f : Option LogFormatter) (a : Appender)
    → a.own_formatter ≡ o
    → is_set f ≡ true
    → is_set (formatter_given o f a).own_formatter ≡ true
with_formatter-is_set none f a e h = h
with_formatter-is_set (some g) f a e h = ap is_set e

-- The appender has the logger's formatter where it had none.
add_appender-IsReady :
    (cs : List Appender) (root h p : ℕ) (ls : List Logger) (l : Logger) (a b : Appender)
    → (all_ready cs root ls && is_top (get_elem? ls root)) ≡ true
    → get_elem? ls h ≡ some l
    → get_elem? cs p ≡ some a
    → is_set b.own_formatter ≡ true
    → (all_ready (set cs p b) root (set ls h (record l { appenders = l.appenders ++ p ∷ [] }))
        && is_top (get_elem? (set ls h (record l { appenders = l.appenders ++ p ∷ [] })) root))
      ≡ true
add_appender-IsReady cs root h p ls l a b r e f g =
    let all = all_ready-More cs (set cs p b) root ls (More-set cs p b g) (ground (arith, r)) in
    let own = all_ready-at (set cs p b) root ls h l all e in
    IsReady-set (set cs p b) root h ls l (record l { appenders = l.appenders ++ p ∷ [] })
      (ground (arith, r, all)) e
      (ground (
        arith,
        own,
        all_formatted-append (set cs p b) l.appenders p,
        has_formatter-set_self cs p b a f g,
      ))
      refl

pub add_appender-IsSound : (h p : ℕ) (s : Logging) → IsSound s → After IsSound (add_appender h p s)
unfolding add_appender
add_appender-IsSound h p s (r, n) = After-bind IsSound (deref (get_elem? s.loggers h)) _ (λ l e.
    After-bind IsSound (deref (get_elem? s.all_appenders p)) _ (λ a f. (
      add_appender-IsReady s.all_appenders s.root h p s.loggers l a (with_formatter l.formatter a) r
          (deref-some _ _ e) (deref-some _ _ f)
          (with_formatter-is_set a.own_formatter l.formatter a refl
            (ground (arith, ready_at s h l r (deref-some _ _ e)))),
      λ m q c.
          name_of-set s.loggers h q l (record l { appenders = l.appenders ++ p ∷ [] })
            (deref-some _ _ e) refl
          ∙ n m q c,
    )))

found_or_new-IsSound :
    (o : Option ℕ) (n : Bytes) (s : Logging) → IsSound s → IsSound (found_or_new o n s).0
unfolding new_logger
found_or_new-IsSound (some h) n s k = k
found_or_new-IsSound none n s (r, k) = (
  ground (
    arith,
    r,
    all_ready-append s.all_appenders s.root s.loggers (new_logger n (some s.root)),
    is_top-append s.loggers s.root (new_logger n (some s.root)),
  ),
  λ m q e.
      let f = find-assign by_bytes m n (length s.loggers) s.named in
      elim (Bool-cases (same less_bytes m n)) [
        | inl x ↦
            let eq : length s.loggers ≡ q = ground (arith, x, e, f) in
            let em = eq_bytes_eq m n (sym (same-eq_bytes m n) ∙ x) in
            ap (name_of (s.loggers ++ new_logger n (some s.root) ∷ [])) (sym eq)
            ∙ name_of_last s.loggers (new_logger n (some s.root))
            ∙ ap ok (sym em)
        | inr x ↦
            name_of-append s.loggers (new_logger n (some s.root)) q m
              (k m q (ground (arith, x, e, f)))
      ],
)

pub get_logger-IsSound : (n : Bytes) (s : Logging) → IsSound s → IsSound (get_logger n s).0
unfolding get_logger
get_logger-IsSound n s k = found_or_new-IsSound (find less_bytes n s.named) n s k

ready_alike :
    (cs ds : List Appender) (root root' : ℕ) (ls ls' : List Logger)
    → ls' ≡ ls
    → root' ≡ root
    → SameFormatters cs ds
    → (all_ready cs root ls && is_top (get_elem? ls root)) ≡ true
    → (all_ready ds root' ls' && is_top (get_elem? ls' root')) ≡ true
ready_alike cs ds root root' ls ls' a b d r = rw (a, b, all_ready-alike cs ds root ls d) r

pub Kept-IsSound : (s t : Logging) → Kept s t → IsSound s → IsSound t
Kept-IsSound s t (a, b, c, d) (r, n) = (
  ready_alike s.all_appenders t.all_appenders s.root t.root s.loggers t.loggers a b d r,
  λ m h e. ap (λ ls. name_of ls h) a ∙ n m h (ap (find less_bytes m) (sym c) ∙ e),
)
