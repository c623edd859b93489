-- ===== src/Log/History.antt =====
-- The log of myhttp/log.cpp over its calls, from the manager's start.
use http_practice.Prelude.{
  ℕ, ◌≡◌, refl, sym, ap, ◌∙◌, List, [], ◌∷◌, Option, none, some, arith, get_elem?, inl, inr,
  Bool-cases, leb, length, if◌then◌else◌,
}
use http_practice.Prelude.Results.{Result, ok, ◌>>=◌, Returns, After, After-at, After-map}
use http_practice.Prelude.SortedMap.{find, find-assign}
use http_practice.Prelude.Keys.{by_bytes, same-eq_bytes}
use http_practice.Prelude.Text.{Bytes, bytes, less_bytes, less_bytes_antisym, eq_bytes_refl}
use http_practice.Log.Levels.{Level}
use http_practice.Log.Formatting.{LogEvent, System}
use http_practice.Log.Appenders.{Appender}
use http_practice.Log.Loggers.{
  Logger, Logging, deref, name_of, set_level, clear_appenders, set_pattern, add_appender,
  del_appender, log, log_event, found_or_new, get_logger, new_logger, new_appender,
  new_logger_manager,
}
use http_practice.Log.Ready.{Kept, IsReady}
use http_practice.Log.Fitting.{Fits}
use http_practice.Log.Keeping.{log_event-Kept}
use http_practice.Log.Delivery.{log-Returns}
use http_practice.Log.Sound.{
  IsSound, IsNamed, name_of_last, set_level-IsSound, clear_appenders-IsSound, set_pattern-IsSound,
  add_appender-IsSound, del_appender-IsSound, new_appender-IsSound, get_logger-IsSound,
  Kept-IsSound,
}

-- The states that the calls reach; `now` is the second in which an event is logged.
pub data Logged (sys : System) : Logging → Type 0 where
  starts : {s : Logging} → new_logger_manager ≡ ok s → Logged sys s
  names : {s : Logging} → Logged sys s → (n : Bytes) → Logged sys (get_logger n s).0
  makes : {s : Logging} → Logged sys s → (a : Appender) → Logged sys (new_appender a s).0
  levels :
      {s t : Logging} → Logged sys s → (h : ℕ) (l : Level) → set_level h l s ≡ ok t → Logged sys t
  patterns :
      {s t : Logging} → Logged sys s → (h : ℕ) (p : Bytes) → set_pattern h p s ≡ ok t → Logged sys t
  adds : {s t : Logging} → Logged sys s → (h p : ℕ) → add_appender h p s ≡ ok t → Logged sys t
  deletes : {s t : Logging} → Logged sys s → (h p : ℕ) → del_appender h p s ≡ ok t → Logged sys t
  clears : {s t : Logging} → Logged sys s → (h : ℕ) → clear_appenders h s ≡ ok t → Logged sys t
  logs :
      {s t : Logging}
      → Logged sys s
      → (now : ℕ) (e : LogEvent) → log_event sys now e s ≡ ok t
      → Logged sys t

guarded-Returns :
    (o : Option Logger) (l : Logger) (level : Level) (f : Result Logging) (s : Logging)
    → o ≡ some l
    → Returns f (Kept s)
    → Returns (deref o >>= λ (v : Logger). if leb v.level level then f else ok s) (Kept s)
guarded-Returns o l level f s x (t, y, z) = elim (Bool-cases (leb l.level level)) [
  | inl c ↦ (t, rw (x, c) y, z)
  | inr c ↦ (s, rw (x, c) refl, (refl, refl, refl, λ p. refl))
]

log_event-Returns :
    (sys : System) (now : ℕ) (e : LogEvent) (s : Logging) (l : Logger)
    → Fits sys e.time s l
    → IsReady s
    → get_elem? s.loggers e.event_logger ≡ some l
    → Returns (log_event sys now e s) (Kept s)
unfolding log_event
log_event-Returns sys now e s l fits r x =
    guarded-Returns (get_elem? s.loggers e.event_logger) l e.event_level
      (log sys now 2 e.event_logger e.event_level e s) s x
      (log-Returns sys now 0 e.event_logger l e.event_level e l.name s r fits x
        (ap {B = Result Bytes} (λ o. deref o >>= λ v. ok v.name) x))

log_event-IsSound :
    (sys : System) (now : ℕ) (e : LogEvent) (s : Logging)
    → IsSound s
    → After IsSound (log_event sys now e s)
log_event-IsSound sys now e s k =
    After-map (log_event sys now e s) (λ t y. Kept-IsSound s t y k) (log_event-Kept sys now e s)

only_name :
    (ls : List Logger) (m n : Bytes) (h : ℕ)
    → name_of ls 0 ≡ ok m
    → find less_bytes n ((m, 0) ∷ []) ≡ some h
    → name_of ls h ≡ ok n
only_name ls m n h x e =
    let at : 0 ≡ h = ground (arith, e) in
    let named = less_bytes_antisym n m (ground (arith, e)) (ground (arith, e)) in
    ap (name_of ls) (sym at) ∙ x ∙ ap ok (sym named)

new_logger_manager-IsSound : After IsSound new_logger_manager
unfolding new_logger_manager new_logger
new_logger_manager-IsSound = (
  refl,
  λ n h e.
      only_name (record (new_logger (bytes "root") none) { appenders = 0 ∷ [] } ∷ []) (bytes "root")
        n h refl e,
)

Logged-IsSound : (sys : System) (s : Logging) → Logged sys s → IsSound s
Logged-IsSound sys s (starts e) = After-at IsSound new_logger_manager s new_logger_manager-IsSound e
Logged-IsSound sys _ (names {s} r n) = get_logger-IsSound n s (Logged-IsSound sys s r)
Logged-IsSound sys _ (makes {s} r a) = new_appender-IsSound a s (Logged-IsSound sys s r)
Logged-IsSound sys t (levels {s} r h l e) =
    After-at IsSound _ t (set_level-IsSound h l s (Logged-IsSound sys s r)) e
Logged-IsSound sys t (patterns {s} r h p e) =
    After-at IsSound _ t (set_pattern-IsSound h p s (Logged-IsSound sys s r)) e
Logged-IsSound sys t (adds {s} r h p e) =
    After-at IsSound _ t (add_appender-IsSound h p s (Logged-IsSound sys s r)) e
Logged-IsSound sys t (deletes {s} r h p e) =
    After-at IsSound _ t (del_appender-IsSound h p s (Logged-IsSound sys s r)) e
Logged-IsSound sys t (clears {s} r h e) =
    After-at IsSound _ t (clear_appenders-IsSound h s (Logged-IsSound sys s r)) e
Logged-IsSound sys t (logs {s} r now e x) =
    After-at IsSound _ t (log_event-IsSound sys now e s (Logged-IsSound sys s r)) x

-- In every state that getLogger, setLevel, setFormatter of a pattern, addAppender,
-- delAppender, clearAppenders and earlier events reach from the start of the manager, an event
-- for a logger is logged with no null pointer dereferenced and no endless recursion, and
-- leaves the loggers, their names and the formatters of the appenders as they were, where in
-- the formatters of the appenders that it is handed to, those of the logger or else of the
-- root logger, the text of each date at the time of the event fits its buffer.
pub Logged-log_event :
    (sys : System) (now : ℕ) (e : LogEvent) (s : Logging) (l : Logger)
    → Fits sys e.time s l
    → Logged sys s
    → get_elem? s.loggers e.event_logger ≡ some l
    → Returns (log_event sys now e s) (Kept s)
Logged-log_event sys now e s l fits r x =
    log_event-Returns sys now e s l fits (Logged-IsSound sys s r).0 x

found-name :
    (o : Option ℕ) (n : Bytes) (s : Logging)
    → find less_bytes n s.named ≡ o
    → IsNamed s
    → (let (t, h) = found_or_new o n s in
        (name_of t.loggers h ≡ ok n) × (find less_bytes n t.named ≡ some h))
unfolding new_logger
found-name (some h) n s e k = (k n h e, e)
found-name none n s e k = (
  name_of_last s.loggers (new_logger n (some s.root)),
  find-assign by_bytes n n (length s.loggers) s.named
      ∙ rw (same-eq_bytes n n ∙ eq_bytes_refl n) refl,
)

-- In every state that the calls reach from the start of the manager, getLogger gives a logger
-- of the name asked for, and asked again gives the same one and changes nothing.
pub get_logger-get_logger :
    (sys : System) (n : Bytes) (s : Logging)
    → Logged sys s
    → (let (t, h) = get_logger n s in (name_of t.loggers h ≡ ok n) × (get_logger n t ≡ (t, h)))
unfolding get_logger
get_logger-get_logger sys n s r =
    let (a, b) = found-name (find less_bytes n s.named) n s refl (Logged-IsSound sys s r).1 in
    (a, ap (λ o. found_or_new o n (get_logger n s).0) b)
