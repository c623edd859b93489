-- ===== src/Log/Delivery.antt =====
-- `Logger::log` of myhttp/log.cpp from a state that is ready: it comes to its end.
use http_practice.Prelude.{
  ℕ, suc, ◌≡◌, refl, sym, ap, ◌∙◌, true, List, [], ◌∷◌, Option, none, some, arith, leb, get_elem?,
  inl, inr, Bool-cases, Option-cases,
}
use http_practice.Prelude.Results.{Result, ok, Returns, After-at}
use http_practice.Prelude.Text.{Bytes}
use http_practice.Log.Levels.{Level}
use http_practice.Log.Formatting.{LogEvent, System}
use http_practice.Log.Loggers.{Logger, Logging, name_of, appended, append_at, deliver, log}
use http_practice.Log.Ready.{
  is_set, has_formatter, all_formatted, all_ready, all_ready-at, IsReady, is_top, on_root,
  formatter_of, Kept, all_formatted-alike, has_formatter-some,
}
use http_practice.Log.Fitting.{
  formatter_fits, all_fit, all_fit-alike, appenders_at, root_appenders, handed, Fits,
  append-returns,
}
use http_practice.Log.Keeping.{Kept-refl, Kept-trans, append_at-Kept}

module _ (sys : System) (now : ℕ) where
  append_at-Returns :
      (p : ℕ) (level : Level) (e : LogEvent) (n : Bytes) (s : Logging)
      → name_of s.loggers e.event_logger ≡ ok n
      → has_formatter (get_elem? s.all_appenders p) ≡ true
      → formatter_fits sys e.time (formatter_of (get_elem? s.all_appenders p)) ≡ true
      → Returns (append_at sys now p level e s) (Kept s)
  append_at-Returns p level e n s h k m =
      let (a, x, y) = has_formatter-some (get_elem? s.all_appenders p) k in
      let fit : formatter_fits sys e.time a.own_formatter ≡ true =
        ap (λ o. formatter_fits sys e.time (formatter_of o)) (sym x) ∙ m in
      let (r, z) = append-returns sys (name_of s.loggers) now level e n a h y fit in
      let run : append_at sys now p level e s ≡ ok (appended p s r) = rw (x, z) refl in
      (
        appended p s r,
        run,
        After-at (Kept s) _ (appended p s r) (append_at-Kept sys now p level e s) run,
      )

  deliver-Returns :
      (ps : List ℕ) (level : Level) (e : LogEvent) (n : Bytes) (s : Logging)
      → name_of s.loggers e.event_logger ≡ ok n
      → all_formatted s.all_appenders ps ≡ true
      → all_fit sys e.time s.all_appenders ps ≡ true
      → Returns (deliver sys now ps level e s) (Kept s)
  unfolding deliver
  deliver-Returns [] level e n s h k m = (s, refl, Kept-refl s)
  deliver-Returns (p ∷ ps) level e n s h k m =
      let (t, x, y) = append_at-Returns p level e n s h (ground (arith, k)) (ground (arith, m)) in
      let (u, z, w) =
        deliver-Returns ps level e n t (ap (λ ls. name_of ls e.event_logger) y.0 ∙ h)
          (all_formatted-alike s.all_appenders t.all_appenders ps y.3 ∙ ground (arith, k))
          (all_fit-alike sys e.time s.all_appenders t.all_appenders ps y.3 ∙ ground (arith, m)) in
      (u, rw (x, z) refl, Kept-trans s t u y w)

  delivered-Returns :
      (f : ℕ → Result Logging) (ps : List ℕ) (r : Option ℕ) (level : Level) (e : LogEvent)
      (n : Bytes) (s : Logging)
      → name_of s.loggers e.event_logger ≡ ok n
      → all_formatted s.all_appenders ps ≡ true
      → all_fit sys e.time s.all_appenders ps ≡ true
      → ((q : ℕ) → ps ≡ [] → r ≡ some q → Returns (f q) (Kept s))
      → Returns
          (elim ps [
            | [] ↦ elim r [ none ↦ ok s | some q ↦ f q ]
            | p ∷ qs ↦ deliver sys now (p ∷ qs) level e s
          ])
          (Kept s)
  delivered-Returns f [] none level e n s h k m g = (s, refl, Kept-refl s)
  delivered-Returns f [] (some q) level e n s h k m g = g q refl refl
  delivered-Returns f (p ∷ ps) r level e n s h k m g = deliver-Returns (p ∷ ps) level e n s h k m

-- The root logger, if it is one with none above it.
top_logger :
    (o : Option Logger) → is_top o ≡ true → (l : Logger) × (o ≡ some l) × (l.root_logger ≡ none)
top_logger none h = absurd (ground (arith, h))
top_logger (some l) h = elim (Option-cases l.root_logger) [
  | inl x ↦ (l, refl, x)
  | inr (r, x) ↦ absurd (ground (arith, h, ap is_set x))
]

on_root-some : (root : ℕ) (r : Option ℕ) (q : ℕ) → on_root root r ≡ true → r ≡ some q → q ≡ root
on_root-some root r q h k = ground (arith, sym (ap (on_root root) k) ∙ h)

-- The appenders of its own are among those that a logger hands an event to.
handed-own :
    (sys : System) (time : ℕ) (s : Logging) (ps : List ℕ) (r : Option ℕ)
    → all_fit sys time s.all_appenders (handed s ps r) ≡ true
    → all_fit sys time s.all_appenders ps ≡ true
handed-own sys time s [] r h = refl
handed-own sys time s (p ∷ ps) r h = h

-- Those of the root logger, if it has none.
handed-root :
    (s : Logging) (l t : Logger) (q : ℕ)
    → l.appenders ≡ []
    → l.root_logger ≡ some q
    → get_elem? s.loggers q ≡ some t
    → handed s l.appenders l.root_logger ≡ t.appenders
handed-root s l t q a c y =
    ap (λ ps. handed s ps l.root_logger) a ∙ ap (root_appenders s) c ∙ ap appenders_at y

module _ (sys : System) (now : ℕ) where
  -- A logger whose calls of the root logger return.
  log-Returns_step :
      (k h : ℕ) (l : Logger) (level : Level) (e : LogEvent) (n : Bytes) (s : Logging)
      → get_elem? s.loggers h ≡ some l
      → all_formatted s.all_appenders l.appenders ≡ true
      → all_fit sys e.time s.all_appenders l.appenders ≡ true
      → name_of s.loggers e.event_logger ≡ ok n
      → ((q : ℕ)
          → l.appenders ≡ []
          → l.root_logger ≡ some q
          → Returns (log sys now k q level e s) (Kept s))
      → Returns (log sys now (suc k) h level e s) (Kept s)
  unfolding log
  log-Returns_step k h l level e n s x y m z g = elim (Bool-cases (leb l.level level)) [
    | inl c ↦
        rw (x, c)
          (delivered-Returns sys now (λ q. log sys now k q level e s) l.appenders l.root_logger
            level e n s z y m g)
    | inr c ↦ rw (x, c) ((s, refl, Kept-refl s))
  ]

  -- From a state that is ready, log comes to its end on fuel for the logger and the root logger.
  pub log-Returns :
      (k h : ℕ) (l : Logger) (level : Level) (e : LogEvent) (n : Bytes) (s : Logging)
      → IsReady s
      → Fits sys e.time s l
      → get_elem? s.loggers h ≡ some l
      → name_of s.loggers e.event_logger ≡ ok n
      → Returns (log sys now (suc (suc k)) h level e s) (Kept s)
  log-Returns k h l level e n s r m x z =
      let ready : all_ready s.all_appenders s.root s.loggers ≡ true = ground (arith, r) in
      let (t, y, w) = top_logger (get_elem? s.loggers s.root) (ground (arith, r)) in
      let top = all_ready-at s.all_appenders s.root s.loggers s.root t ready y in
      let own = all_ready-at s.all_appenders s.root s.loggers h l ready x in
      log-Returns_step (suc k) h l level e n s x (ground (arith, own))
        (handed-own sys e.time s l.appenders l.root_logger m) z
        (λ q a c.
          let at =
            ap (get_elem? s.loggers) (on_root-some s.root l.root_logger q (ground (arith, own)) c)
            ∙ y in
          log-Returns_step k q t level e n s at (ground (arith, top))
            (ap (all_fit sys e.time s.all_appenders) (sym (handed-root s l t q a c at)) ∙ m) z
            (λ p b d. absurd (ground (arith, sym w ∙ d))))
