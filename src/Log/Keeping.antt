-- ===== src/Log/Keeping.antt =====
-- What no call of `log` of myhttp/log.cpp changes, however it ends.
use http_practice.Prelude.{
  ℕ, zero, suc, ◌≡◌, refl, ◌∙◌, List, [], ◌∷◌, Option, none, some, leb, get_elem?, inl, inr,
  Bool-cases,
}
use http_practice.Prelude.Results.{Result, ok, After, After-bind, After-at}
use http_practice.Prelude.Text.{Bytes}
use http_practice.Log.Levels.{Level}
use http_practice.Log.Formatting.{LogEvent, System}
use http_practice.Log.Appenders.{
  LogSink, stdout_sink, file_sink, Appender, Written, formatted, log_sink, append,
}
use http_practice.Log.Loggers.{Logging, deref, name_of, append_at, deliver, log, log_event}
use http_practice.Log.Ready.{Kept, formatter_of-set}
use http_practice.Log.Sound.{deref-some}

pub Kept-refl : (s : Logging) → Kept s s
Kept-refl s = (refl, refl, refl, λ p. refl)

pub Kept-trans : (s t u : Logging) → Kept s t → Kept t u → Kept s u
Kept-trans s t u (a, b, c, d) (a', b', c', d') = (a' ∙ a, b' ∙ b, c' ∙ c, λ p. d' p ∙ d p)

-- An appender behind a call has the formatter it had.
abbrev SameFormatter : Appender → Appender × List Written → Type 0
SameFormatter a r = (r.0).own_formatter ≡ a.own_formatter

module _ (sys : System) (now : ℕ) where
  log_sink-SameFormatter :
      (nm : ℕ → Result Bytes) (k : LogSink) (level : Level) (e : LogEvent) (a : Appender)
      → After (SameFormatter a) (log_sink sys nm now k level e a)
  log_sink-SameFormatter nm stdout_sink level e a =
      After-bind (SameFormatter a) (formatted sys nm a.own_formatter level e) _ (λ out x. refl)
  log_sink-SameFormatter nm (file_sink filename st last_time) level e a =
      After-bind (SameFormatter a) (formatted sys nm a.own_formatter level e) _ (λ out x. refl)

  append-SameFormatter :
      (nm : ℕ → Result Bytes) (level : Level) (e : LogEvent) (a : Appender)
      → After (SameFormatter a) (append sys nm now level e a)
  unfolding append
  append-SameFormatter nm level e a = elim (Bool-cases (leb a.min_level level)) [
    | inl x ↦ rw x (log_sink-SameFormatter nm a.sink level e a)
    | inr x ↦ rw x refl
  ]

  pub append_at-Kept :
      (p : ℕ) (level : Level) (e : LogEvent) (s : Logging)
      → After (Kept s) (append_at sys now p level e s)
  append_at-Kept p level e s = After-bind (Kept s) (deref (get_elem? s.all_appenders p)) _ (λ a x.
      After-bind (Kept s) (append sys (name_of s.loggers) now level e a) _ (λ r y. (
        refl,
        refl,
        refl,
        formatter_of-set s.all_appenders p a r.0 (deref-some _ _ x)
            (After-at (SameFormatter a) _ r (append-SameFormatter (name_of s.loggers) level e a) y),
      )))

  deliver-Kept :
      (ps : List ℕ) (level : Level) (e : LogEvent) (s u : Logging)
      → Kept u s
      → After (Kept u) (deliver sys now ps level e s)
  unfolding deliver
  deliver-Kept [] level e s u k = k
  deliver-Kept (p ∷ ps) level e s u k =
      After-bind (Kept u) (append_at sys now p level e s) _ (λ t x.
        deliver-Kept ps level e t u
          (Kept-trans u s t k (After-at (Kept s) _ t (append_at-Kept p level e s) x)))

  delivered-Kept :
      (f : ℕ → Result Logging) (ps : List ℕ) (r : Option ℕ) (level : Level) (e : LogEvent)
      (s : Logging)
      → ((q : ℕ) → After (Kept s) (f q))
      → After (Kept s) (elim ps [
        | [] ↦ elim r [ none ↦ ok s | some q ↦ f q ]
        | p ∷ qs ↦ deliver sys now (p ∷ qs) level e s
      ])
  delivered-Kept f [] none level e s h = Kept-refl s
  delivered-Kept f [] (some q) level e s h = h q
  delivered-Kept f (p ∷ ps) r level e s h = deliver-Kept (p ∷ ps) level e s s (Kept-refl s)

  log-Kept :
      (n h : ℕ) (level : Level) (e : LogEvent) (s : Logging)
      → After (Kept s) (log sys now n h level e s)
  unfolding log
  log-Kept zero h level e s = tt
  log-Kept (suc n) h level e s = After-bind (Kept s) (deref (get_elem? s.loggers h)) _ (λ l x.
      elim (Bool-cases (leb l.level level)) [
        | inl c ↦ rw c (
            delivered-Kept (λ r. log sys now n r level e s) l.appenders l.root_logger level e s
              (λ q. log-Kept n q level e s))
        | inr c ↦ rw c (Kept-refl s)
      ])

  pub log_event-Kept : (e : LogEvent) (s : Logging) → After (Kept s) (log_event sys now e s)
  unfolding log_event
  log_event-Kept e s = After-bind (Kept s) (deref (get_elem? s.loggers e.event_logger)) _ (λ l x.
      elim (Bool-cases (leb l.level e.event_level)) [
        | inl c ↦ rw c (log-Kept 2 e.event_logger e.event_level e s)
        | inr c ↦ rw c (Kept-refl s)
      ])
