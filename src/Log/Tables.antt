-- ===== src/Log/Tables.antt =====
-- Readiness of the log of myhttp/log.cpp when its table of loggers or appenders changes.
use http_practice.Prelude.{
  ℕ, zero, suc, ◌≡◌, refl, sym, ap, ◌∙◌, true, not, ◌&&◌, List, [], ◌∷◌, ◌++◌, some, arith,
  get_elem?, set,
}
use http_practice.Log.Appenders.{Appender}
use http_practice.Log.Loggers.{Logger}
use http_practice.Log.Ready.{is_set, has_formatter, all_formatted, logger_ready, all_ready, is_top}

-- More of the appenders have a formatter.
abbrev pub More : List Appender → List Appender → Type 0
More cs ds = (p : ℕ) → has_formatter (get_elem? cs p) ≡ true → has_formatter (get_elem? ds p) ≡ true

pub all_formatted-More :
    (cs ds : List Appender) (ps : List ℕ)
    → More cs ds
    → all_formatted cs ps ≡ true
    → all_formatted ds ps ≡ true
all_formatted-More cs ds [] m h = refl
all_formatted-More cs ds (p ∷ ps) m h =
    ground (arith, h, m p, all_formatted-More cs ds ps m (ground (arith, h)))

pub all_ready-More :
    (cs ds : List Appender) (root : ℕ) (ls : List Logger)
    → More cs ds
    → all_ready cs root ls ≡ true
    → all_ready ds root ls ≡ true
all_ready-More cs ds root [] m h = refl
all_ready-More cs ds root (l ∷ ls) m h = ground (
  arith,
  h,
  all_formatted-More cs ds l.appenders m (ground (arith, h)),
  all_ready-More cs ds root ls m (ground (arith, h)),
)

pub all_ready-set :
    (cs : List Appender) (root : ℕ) (ls : List Logger) (h : ℕ) (l : Logger)
    → all_ready cs root ls ≡ true
    → logger_ready cs root l ≡ true
    → all_ready cs root (set ls h l) ≡ true
all_ready-set cs root [] h l x y = refl
all_ready-set cs root (m ∷ ls) zero l x y = ground (arith, x, y)
all_ready-set cs root (m ∷ ls) (suc h) l x y =
    ground (arith, x, all_ready-set cs root ls h l (ground (arith, x)) y)

pub all_ready-append :
    (cs : List Appender) (root : ℕ) (ls : List Logger) (l : Logger)
    → all_ready cs root (ls ++ l ∷ []) ≡ (all_ready cs root ls && logger_ready cs root l)
all_ready-append cs root [] l = ground arith
all_ready-append cs root (m ∷ ls) l = ground (arith, all_ready-append cs root ls l)

pub is_top-set :
    (ls : List Logger) (h root : ℕ) (l m : Logger)
    → get_elem? ls h ≡ some l
    → m.root_logger ≡ l.root_logger
    → is_top (get_elem? (set ls h m) root) ≡ is_top (get_elem? ls root)
is_top-set [] h root l m x y = refl
is_top-set (k ∷ ls) zero zero l m x y = ap (λ r. not (is_set r)) y ∙ ap is_top (sym x)
is_top-set (k ∷ ls) zero (suc root) l m x y = refl
is_top-set (k ∷ ls) (suc h) zero l m x y = refl
is_top-set (k ∷ ls) (suc h) (suc root) l m x y = is_top-set ls h root l m x y

pub is_top-append :
    (ls : List Logger) (root : ℕ) (l : Logger)
    → is_top (get_elem? ls root) ≡ true
    → is_top (get_elem? (ls ++ l ∷ []) root) ≡ true
is_top-append [] root l h = absurd (ground (arith, h))
is_top-append (m ∷ ls) zero l h = h
is_top-append (m ∷ ls) (suc root) l h = is_top-append ls root l h

pub More-append : (cs : List Appender) (a : Appender) → More cs (cs ++ a ∷ [])
More-append [] a p h = absurd (ground (arith, h))
More-append (c ∷ cs) a zero h = h
More-append (c ∷ cs) a (suc p) h = More-append cs a p h

pub More-set :
    (cs : List Appender) (q : ℕ) (a : Appender)
    → is_set a.own_formatter ≡ true
    → More cs (set cs q a)
More-set [] q a h p k = k
More-set (c ∷ cs) zero a h zero k = h
More-set (c ∷ cs) zero a h (suc p) k = k
More-set (c ∷ cs) (suc q) a h zero k = k
More-set (c ∷ cs) (suc q) a h (suc p) k = More-set cs q a h p k

pub has_formatter-set_self :
    (cs : List Appender) (q : ℕ) (a b : Appender)
    → get_elem? cs q ≡ some b
    → is_set a.own_formatter ≡ true
    → has_formatter (get_elem? (set cs q a) q) ≡ true
has_formatter-set_self [] q a b x h = absurd (ground (arith, x))
has_formatter-set_self (c ∷ cs) zero a b x h = h
has_formatter-set_self (c ∷ cs) (suc q) a b x h = has_formatter-set_self cs q a b x h
