-- ===== src/Log/Ready.antt =====
-- The state of the log of myhttp/log.cpp in which no call dereferences a null pointer.
use http_practice.Prelude.{
  ℕ, zero, suc, ◌≡◌, refl, sym, ap, ◌∙◌, Bool, true, false, not, ◌&&◌, List, [], ◌∷◌, Option, none,
  some, arith, ◌==◌, get_elem?, set,
}
use http_practice.Log.Pattern.{LogFormatter}
use http_practice.Log.Appenders.{Appender}
use http_practice.Log.Loggers.{Logger, Logging}

abbrev pub is_set {ℓ} : {A : Type ℓ} → Option A → Bool
is_set none = false
is_set (some a) = true

abbrev pub formatter_of : Option Appender → Option LogFormatter
formatter_of none = none
formatter_of (some a) = a.own_formatter

abbrev pub has_formatter : Option Appender → Bool
has_formatter o = is_set (formatter_of o)

abbrev pub all_formatted : List Appender → List ℕ → Bool
all_formatted cs [] = true
all_formatted cs (p ∷ ps) = has_formatter (get_elem? cs p) && all_formatted cs ps

-- A logger on the root logger, or the root logger itself, with what it needs to log.
abbrev pub on_root : ℕ → Option ℕ → Bool
on_root root none = true
on_root root (some r) = r == root

abbrev pub logger_ready : List Appender → ℕ → Logger → Bool
logger_ready cs root l =
    all_formatted cs l.appenders && is_set l.formatter && on_root root l.root_logger

abbrev pub all_ready : List Appender → ℕ → List Logger → Bool
all_ready cs root [] = true
all_ready cs root (l ∷ ls) = logger_ready cs root l && all_ready cs root ls

abbrev pub is_top : Option Logger → Bool
is_top none = false
is_top (some l) = not (is_set l.root_logger)

-- Every logger is ready, and the root logger has none above it.
abbrev pub IsReady : Logging → Type 0
IsReady s =
    (all_ready s.all_appenders s.root s.loggers && is_top (get_elem? s.loggers s.root)) ≡ true

abbrev pub SameFormatters : List Appender → List Appender → Type 0
SameFormatters cs ds = (p : ℕ) → formatter_of (get_elem? ds p) ≡ formatter_of (get_elem? cs p)

-- What no delivery changes: the loggers, their names, and the formatters of the appenders.
abbrev pub Kept : Logging → Logging → Type 0
Kept s t =
    (t.loggers ≡ s.loggers)
    × (t.root ≡ s.root)
    × (t.named ≡ s.named)
    × SameFormatters s.all_appenders t.all_appenders

pub all_formatted-alike :
    (cs ds : List Appender) (ps : List ℕ)
    → SameFormatters cs ds
    → all_formatted ds ps ≡ all_formatted cs ps
all_formatted-alike cs ds [] h = refl
all_formatted-alike cs ds (p ∷ ps) h = rw (h p, all_formatted-alike cs ds ps h) refl

pub all_ready-alike :
    (cs ds : List Appender) (root : ℕ) (ls : List Logger)
    → SameFormatters cs ds
    → all_ready ds root ls ≡ all_ready cs root ls
all_ready-alike cs ds root [] h = refl
all_ready-alike cs ds root (l ∷ ls) h =
    rw (all_formatted-alike cs ds l.appenders h, all_ready-alike cs ds root ls h) refl

pub formatter_of-set :
    (cs : List Appender) (q : ℕ) (a b : Appender)
    → get_elem? cs q ≡ some a
    → b.own_formatter ≡ a.own_formatter
    → SameFormatters cs (set cs q b)
formatter_of-set [] q a b h k p = refl
formatter_of-set (c ∷ cs) zero a b h k zero = k ∙ ap formatter_of (sym h)
formatter_of-set (c ∷ cs) zero a b h k (suc p) = refl
formatter_of-set (c ∷ cs) (suc q) a b h k zero = refl
formatter_of-set (c ∷ cs) (suc q) a b h k (suc p) = formatter_of-set cs q a b h k p

-- An appender that is known to have a formatter is in the table.
pub has_formatter-some :
    (o : Option Appender)
    → has_formatter o ≡ true
    → (a : Appender) × (o ≡ some a) × (is_set a.own_formatter ≡ true)
has_formatter-some none h = absurd (ground (arith, h))
has_formatter-some (some a) h = (a, refl, h)

pub all_ready-at :
    (cs : List Appender) (root : ℕ) (ls : List Logger) (h : ℕ) (l : Logger)
    → all_ready cs root ls ≡ true
    → get_elem? ls h ≡ some l
    → logger_ready cs root l ≡ true
all_ready-at cs root [] h l x y = absurd (ground (arith, y))
all_ready-at cs root (m ∷ ls) zero l x y =
    ap {B = Bool} (λ (o : Option Logger). elim o [ none ↦ true | some v ↦ logger_ready cs root v ])
      (sym y)
    ∙ ground (arith, x)
all_ready-at cs root (m ∷ ls) (suc h) l x y = all_ready-at cs root ls h l (ground (arith, x)) y
