-- ===== src/Log/Output.antt =====
-- What `Logger::log` of myhttp/log.cpp puts out where the appenders write to the standard output.
use mathlib.Core.List.{append-nil, append_assoc}
use http_practice.Prelude.{
  ℕ, zero, suc, ◌<◌, ◌≡◌, refl, sym, ap, ◌∙◌, Bool, true, false, ◌&&◌, List, [], ◌∷◌, ◌++◌, Option,
  none, some, arith, leb, if◌then◌else◌, get_elem?, set, length, inl, inr, Bool-cases,
}
use http_practice.Prelude.Results.{Result, ok, err, ◌>>=◌}
use http_practice.Prelude.Text.{Bytes}
use http_practice.Log.Levels.{Level}
use http_practice.Log.Formatting.{LogEvent, System}
use http_practice.Log.Appenders.{
  LogSink, stdout_sink, file_sink, Appender, Written, on_stdout, formatted, log_sink, append,
}
use http_practice.Log.Loggers.{Logger, Logging, name_of, append_at, deliver, log}
use http_practice.Log.Ready.{is_set, formatter_of}
use http_practice.Log.Fitting.{formatter_fits, all_fit, formatted-returns}

abbrev is_stdout : LogSink → Bool
is_stdout stdout_sink = true
is_stdout (file_sink filename st last_time) = false

abbrev at_stdout : Option Appender → Bool
at_stdout none = false
at_stdout (some a) = is_stdout a.sink && is_set a.own_formatter

abbrev pub all_stdout : List Appender → List ℕ → Bool
all_stdout cs [] = true
all_stdout cs (p ∷ ps) = at_stdout (get_elem? cs p) && all_stdout cs ps

abbrev text_of : Result Bytes → Bytes
text_of (ok b) = b
text_of (err f) = []

set_same : (cs : List Appender) (p : ℕ) (a : Appender) → get_elem? cs p ≡ some a → set cs p a ≡ cs
set_same [] p a h = refl
set_same (c ∷ cs) zero a h =
    ap (λ (o : Option Appender). elim o [ none ↦ c ∷ cs | some b ↦ b ∷ cs ]) (sym h)
set_same (c ∷ cs) (suc p) a h = ap (λ ds. c ∷ ds) (set_same cs p a h)

module _ (sys : System) where
  -- The text of an appender, if the event reaches its level.
  abbrev shown_by : (ℕ → Result Bytes) → Level → LogEvent → Option Appender → List Written
  shown_by nm level e none = []
  shown_by nm level e (some a) =
      if leb a.min_level level
      then on_stdout (text_of (formatted sys nm a.own_formatter level e)) ∷ []
      else []

  abbrev pub shown : (ℕ → Result Bytes) → List Appender → List ℕ → Level → LogEvent → List Written
  shown nm cs [] level e = []
  shown nm cs (p ∷ ps) level e = shown_by nm level e (get_elem? cs p) ++ shown nm cs ps level e

module _ (sys : System) (now : ℕ) where
  append-stdout :
      (nm : ℕ → Result Bytes) (level : Level) (e : LogEvent) (n : Bytes) (a : Appender)
      (k : LogSink)
      → nm e.event_logger ≡ ok n
      → (is_stdout k && is_set a.own_formatter) ≡ true
      → formatter_fits sys e.time a.own_formatter ≡ true
      → (if leb a.min_level level then log_sink sys nm now k level e a else ok (a, []))
        ≡ ok (a, shown_by sys nm level e (some a))
  append-stdout nm level e n a (file_sink filename st last_time) h k m = absurd (ground (arith, k))
  append-stdout nm level e n a stdout_sink h k m =
      let (b, x) = formatted-returns sys nm level e n a.own_formatter h k m in
      elim (Bool-cases (leb a.min_level level)) [ inl y ↦ rw (x, y) refl | inr y ↦ rw y refl ]

  at_stdout-some :
      (o : Option Appender)
      → at_stdout o ≡ true
      → (a : Appender) × (o ≡ some a) × ((is_stdout a.sink && is_set a.own_formatter) ≡ true)
  at_stdout-some none h = absurd (ground (arith, h))
  at_stdout-some (some a) h = (a, refl, h)

  append_at-stdout :
      (p : ℕ) (level : Level) (e : LogEvent) (n : Bytes) (s : Logging)
      → name_of s.loggers e.event_logger ≡ ok n
      → at_stdout (get_elem? s.all_appenders p) ≡ true
      → formatter_fits sys e.time (formatter_of (get_elem? s.all_appenders p)) ≡ true
      → append_at sys now p level e s
        ≡ ok (record s {
          written =
              s.written ++ shown_by sys (name_of s.loggers) level e (get_elem? s.all_appenders p);
        })
  unfolding append
  append_at-stdout p level e n s h k m =
      let (a, x, y) = at_stdout-some (get_elem? s.all_appenders p) k in
      let fit : formatter_fits sys e.time a.own_formatter ≡ true =
        ap (λ o. formatter_fits sys e.time (formatter_of o)) (sym x) ∙ m in
      let run = append-stdout (name_of s.loggers) level e n a a.sink h y fit in
      let same = set_same s.all_appenders p a x in rw (x, run, same) refl

  deliver-stdout :
      (ps : List ℕ) (level : Level) (e : LogEvent) (n : Bytes) (s : Logging)
      → name_of s.loggers e.event_logger ≡ ok n
      → all_stdout s.all_appenders ps ≡ true
      → all_fit sys e.time s.all_appenders ps ≡ true
      → deliver sys now ps level e s
        ≡ ok (record s {
          written = s.written ++ shown sys (name_of s.loggers) s.all_appenders ps level e;
        })
  unfolding deliver
  deliver-stdout [] level e n s h k m = rw append-nil refl
  deliver-stdout (p ∷ ps) level e n s h k m =
      let own = name_of s.loggers in
      let first = append_at-stdout p level e n s h (ground (arith, k)) (ground (arith, m)) in
      ap (λ r. r >>= λ t. deliver sys now ps level e t) first
      ∙ deliver-stdout ps level e n
          (record s {
            written = s.written ++ shown_by sys own level e (get_elem? s.all_appenders p);
          })
          h (ground (arith, k)) (ground (arith, m))
      ∙ rw
          (append_assoc s.written (shown_by sys own level e (get_elem? s.all_appenders p))
            (shown sys own s.all_appenders ps level e))
          refl

  delivered-stdout :
      (f : ℕ → Result Logging) (ps : List ℕ) (r : Option ℕ) (level : Level) (e : LogEvent)
      (n : Bytes) (s : Logging)
      → name_of s.loggers e.event_logger ≡ ok n
      → all_stdout s.all_appenders ps ≡ true
      → all_fit sys e.time s.all_appenders ps ≡ true
      → 0 < length ps
      → elim ps [
        | [] ↦ elim r [ none ↦ ok s | some q ↦ f q ]
        | p ∷ qs ↦ deliver sys now (p ∷ qs) level e s
      ]
        ≡ ok (record s {
          written = s.written ++ shown sys (name_of s.loggers) s.all_appenders ps level e;
        })
  delivered-stdout f [] r level e n s h k m z = absurd (omega (arith, z))
  delivered-stdout f (p ∷ ps) r level e n s h k m z = deliver-stdout (p ∷ ps) level e n s h k m

  -- Where in the formatters of its appenders the text of each date at the time of the event fits
  -- its buffer, log of a logger with appenders of its own, all on the standard output with a
  -- formatter, puts out the formatted event once for each of them whose level it reaches, in
  -- their order, if it reaches the level of the logger, and else nothing; it changes nothing
  -- else.
  pub log-stdout :
      (k h : ℕ) (l : Logger) (level : Level) (e : LogEvent) (n : Bytes) (s : Logging)
      → get_elem? s.loggers h ≡ some l
      → name_of s.loggers e.event_logger ≡ ok n
      → all_stdout s.all_appenders l.appenders ≡ true
      → all_fit sys e.time s.all_appenders l.appenders ≡ true
      → 0 < length l.appenders
      → log sys now (suc k) h level e s
        ≡ ok (
            if leb l.level level
            then record s {
              written =
                  s.written ++ shown sys (name_of s.loggers) s.all_appenders l.appenders level e;
            }
            else s)
  unfolding log
  log-stdout k h l level e n s x y z m w = elim (Bool-cases (leb l.level level)) [
    | inl c ↦
        rw (x, c)
          (delivered-stdout (λ r. log sys now k r level e s) l.appenders l.root_logger level e n s y
            z m w)
    | inr c ↦ rw (x, c) refl
  ]
