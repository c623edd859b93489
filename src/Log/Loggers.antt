-- ===== src/Log/Loggers.antt =====
-- `Logger` and `LoggerManager` of myhttp/log.cpp over the table of all loggers and appenders: a
-- pointer to one is its place there.
use http_practice.Prelude.{
  ℕ, zero, suc, List, [], ◌∷◌, ◌++◌, Option, none, some, leb, ◌==◌, if◌then◌else◌, length,
  get_elem?, set,
}
use http_practice.Prelude.Results.{Result, ok, err, null_pointer, out_of_bounds, ◌>>=◌}
use http_practice.Prelude.SortedMap.{SortedMap, find, assign}
use http_practice.Prelude.Text.{Bytes, bytes, less_bytes}
use http_practice.Log.Levels.{Level, debug}
use http_practice.Log.Pattern.{LogFormatter, new_formatter}
use http_practice.Log.Formatting.{LogEvent, System}
use http_practice.Log.Appenders.{Appender, Written, set_formatter, new_stdout_appender, append}

pub record Logger : Type 0 where
  pub name : Bytes
  pub level : Level
  pub appenders : List ℕ
  pub formatter : Option LogFormatter
  pub root_logger : Option ℕ

pub record Logging : Type 0 where
  pub loggers : List Logger
  pub all_appenders : List Appender
  pub written : List Written
  -- `m_loggers` and `m_root` of the manager.
  pub named : SortedMap Bytes ℕ
  pub root : ℕ

abbrev pub default_pattern : Bytes
default_pattern = bytes "%d{%Y-%m-%d %H:%M:%S}%T%t%T%N%T%F%T[%p]%T[%c]%T%f:%l%T%m%n"

unfoldable pub new_logger : Bytes → Option ℕ → Logger
new_logger name root = record {
  name = name;
  level = debug;
  appenders = [];
  formatter = some (new_formatter default_pattern);
  root_logger = root;
}

-- `->` on a pointer to one of the table.
abbrev pub deref {ℓ} : {A : Type ℓ} → Option A → Result A
deref none = err null_pointer
deref (some a) = ok a

abbrev pub logger_at : Logging → ℕ → Result Logger
logger_at s h = deref (get_elem? s.loggers h)

abbrev pub with_logger : ℕ → (Logger → Logger) → Logging → Result Logging
with_logger h f s = do l ← logger_at s h; ok (record s { loggers = set s.loggers h (f l) })

abbrev pub name_of : List Logger → ℕ → Result Bytes
name_of ls h = do l ← deref (get_elem? ls h); ok l.name

unfoldable pub set_level : ℕ → Level → Logging → Result Logging
set_level h val = with_logger h (λ l. record l { level = val })

unfoldable pub clear_appenders : ℕ → Logging → Result Logging
clear_appenders h = with_logger h (λ l. record l { appenders = [] })

-- `setFormatter` of a pattern: one with an error is not taken.
unfoldable pub set_pattern : ℕ → Bytes → Logging → Result Logging
set_pattern h val s =
    let new_val = new_formatter val in
    let taken = with_logger h (λ l. record l { formatter = some new_val }) s in
    if new_val.is_error then ok s else taken

abbrev pub formatter_given : Option LogFormatter → Option LogFormatter → Appender → Appender
formatter_given none f a = set_formatter f a
formatter_given (some g) f a = a

-- `if (!appender->getFormatter())`.
abbrev pub with_formatter : Option LogFormatter → Appender → Appender
with_formatter f a = formatter_given a.own_formatter f a

unfoldable pub add_appender : ℕ → ℕ → Logging → Result Logging
add_appender h p s = do
  l ← logger_at s h
  a ← deref (get_elem? s.all_appenders p)
  ok (record s {
    loggers = set s.loggers h (record l { appenders = l.appenders ++ p ∷ [] });
    all_appenders = set s.all_appenders p (with_formatter l.formatter a);
  })

-- `erase` of the first that is the same.
abbrev pub drop_appender : ℕ → List ℕ → List ℕ
drop_appender p [] = []
drop_appender p (q ∷ qs) = if q == p then qs else q ∷ drop_appender p qs

unfoldable pub del_appender : ℕ → ℕ → Logging → Result Logging
del_appender h p = with_logger h (λ l. record l { appenders = drop_appender p l.appenders })

abbrev pub appended : ℕ → Logging → Appender × List Written → Logging
appended p s (a, out) = record s {
  all_appenders = set s.all_appenders p a;
  written = s.written ++ out;
}

module _ (sys : System) (now : ℕ) where
  abbrev pub append_at : ℕ → Level → LogEvent → Logging → Result Logging
  append_at p level e s = do
    a ← deref (get_elem? s.all_appenders p)
    r ← append sys (name_of s.loggers) now level e a
    ok (appended p s r)

  unfoldable pub deliver : List ℕ → Level → LogEvent → Logging → Result Logging
  unfolding append
  deliver [] level e s = ok s
  deliver (p ∷ ps) level e s = do t ← append_at p level e s; deliver ps level e t

  -- Without appenders of its own a logger hands the event to the root logger.
  abbrev pub delivered : (ℕ → Result Logging) → Logger → Level → LogEvent → Logging → Result Logging
  delivered on_root l level e s = elim l.appenders [
    | [] ↦ elim l.root_logger [ none ↦ ok s | some r ↦ on_root r ]
    | p ∷ ps ↦ deliver (p ∷ ps) level e s
  ]

  -- `Logger::log`, on fuel: the loggers that the event is handed to.
  unfoldable pub log : ℕ → ℕ → Level → LogEvent → Logging → Result Logging
  unfolding deliver
  log zero h level e s = err out_of_bounds
  log (suc n) h level e s = do
    l ← logger_at s h
    if leb l.level level then delivered (λ r. log n r level e s) l level e s else ok s

  -- `MYHTTP_LOG_LEVEL`, whose event wraps the call of `log` in its destructor.
  unfoldable pub log_event : LogEvent → Logging → Result Logging
  unfolding log
  log_event e s = do
    l ← logger_at s e.event_logger
    if leb l.level e.event_level then log 2 e.event_logger e.event_level e s else ok s

-- `getLogger`: a new one stands on the root logger.
abbrev pub new_named : Bytes → Logging → Logging × ℕ
new_named name s = (
  record s {
    loggers = s.loggers ++ new_logger name (some s.root) ∷ [];
    named = assign less_bytes name (length s.loggers) s.named;
  },
  length s.loggers,
)

abbrev pub found_or_new : Option ℕ → Bytes → Logging → Logging × ℕ
found_or_new none name s = new_named name s
found_or_new (some h) name s = (s, h)

unfoldable pub get_logger : Bytes → Logging → Logging × ℕ
unfolding new_logger
get_logger name s = found_or_new (find less_bytes name s.named) name s

-- `make_shared` of an appender.
abbrev pub new_appender : Appender → Logging → Logging × ℕ
new_appender a s = (record s { all_appenders = s.all_appenders ++ a ∷ [] }, length s.all_appenders)

-- `LoggerManager`, whose root logger writes to the standard output.
unfoldable pub new_logger_manager : Result Logging
unfolding new_logger add_appender
new_logger_manager = add_appender 0 0 (record {
  loggers = new_logger (bytes "root") none ∷ [];
  all_appenders = new_stdout_appender ∷ [];
  written = [];
  named = (bytes "root", 0) ∷ [];
  root = 0;
})
