-- ===== src/Log/Fitting.antt =====
-- `format` of myhttp/log.cpp where the texts of dates fit the buffer of 64 bytes.
use http_practice.Prelude.{
  ℕ, ◌≡◌, refl, Bool, true, ◌&&◌, List, [], ◌∷◌, ◌++◌, Option, none, some, arith, ltb, leb, length,
  get_elem?, inl, inr, Bool-cases,
}
use http_practice.Prelude.Results.{Result, ok}
use http_practice.Prelude.Text.{Bytes, c_str}
use http_practice.Log.Levels.{Level}
use http_practice.Log.Pattern.{
  Item, message_item, level_item, elapse_item, name_item, thread_id_item, new_line_item,
  filename_item, line_item, tab_item, fiber_id_item, thread_name_item, date_time_item, string_item,
  LogFormatter,
}
use http_practice.Log.Formatting.{LogEvent, System, format_item, format_items, format}
use http_practice.Log.Appenders.{
  LogSink, stdout_sink, file_sink, Appender, Written, on_stdout, formatted, log_sink, write_file,
  current, append,
}
use http_practice.Log.Loggers.{Logger, Logging}
use http_practice.Log.Ready.{is_set, formatter_of, SameFormatters}

module _ (sys : System) (time : ℕ) where
  -- The text of a date of that time fits the buffer.
  abbrev pub item_fits : Item → Bool
  item_fits (date_time_item fmt) = ltb (length (sys.strftime (c_str fmt) time)) 64
  item_fits _ = true

  abbrev pub items_fit : List Item → Bool
  items_fit [] = true
  items_fit (i ∷ items) = item_fits i && items_fit items

  abbrev pub formatter_fits : Option LogFormatter → Bool
  formatter_fits none = true
  formatter_fits (some f) = items_fit f.items

  -- Those of the formatters of some appenders.
  abbrev pub all_fit : List Appender → List ℕ → Bool
  all_fit cs [] = true
  all_fit cs (p ∷ ps) = formatter_fits (formatter_of (get_elem? cs p)) && all_fit cs ps

-- The appenders that a logger hands an event to: its own, or those of the root logger.
abbrev pub appenders_at : Option Logger → List ℕ
appenders_at none = []
appenders_at (some l) = l.appenders

abbrev pub root_appenders : Logging → Option ℕ → List ℕ
root_appenders s none = []
root_appenders s (some r) = appenders_at (get_elem? s.loggers r)

abbrev pub handed : Logging → List ℕ → Option ℕ → List ℕ
handed s [] r = root_appenders s r
handed s (p ∷ ps) r = p ∷ ps

-- The dates of an event fit in the formatters of the appenders that it is handed to.
abbrev pub Fits : System → ℕ → Logging → Logger → Type 0
Fits sys time s l = all_fit sys time s.all_appenders (handed s l.appenders l.root_logger) ≡ true

module _ (sys : System) (nm : ℕ → Result Bytes) where
  format_item-returns :
      (level : Level) (e : LogEvent) (n : Bytes)
      → nm e.event_logger ≡ ok n
      → (i : Item) → item_fits sys e.time i ≡ true
      → (b : Bytes) × (format_item sys nm level e i ≡ ok b)
  format_item-returns level e n h message_item k = (_, refl)
  format_item-returns level e n h level_item k = (_, refl)
  format_item-returns level e n h elapse_item k = (_, refl)
  format_item-returns level e n h name_item k = (n, h)
  format_item-returns level e n h thread_id_item k = (_, refl)
  format_item-returns level e n h thread_name_item k = (_, refl)
  format_item-returns level e n h fiber_id_item k = (_, refl)
  format_item-returns level e n h (date_time_item fmt) k =
      (sys.strftime (c_str fmt) e.time, rw k refl)
  format_item-returns level e n h filename_item k = (_, refl)
  format_item-returns level e n h line_item k = (_, refl)
  format_item-returns level e n h new_line_item k = (_, refl)
  format_item-returns level e n h (string_item s) k = (s, refl)
  format_item-returns level e n h tab_item k = (_, refl)

  format_items-returns :
      (level : Level) (e : LogEvent) (n : Bytes)
      → nm e.event_logger ≡ ok n
      → (items : List Item) → items_fit sys e.time items ≡ true
      → (b : Bytes) × (format_items sys nm level e items ≡ ok b)
  format_items-returns level e n h [] k = ([], refl)
  format_items-returns level e n h (i ∷ items) k =
      let (a, p) = format_item-returns level e n h i (ground (arith, k)) in
      let (b, q) = format_items-returns level e n h items (ground (arith, k)) in
      (a ++ b, rw (p, q) refl)

  pub formatted-returns :
      (level : Level) (e : LogEvent) (n : Bytes) (f : Option LogFormatter)
      → nm e.event_logger ≡ ok n
      → is_set f ≡ true
      → formatter_fits sys e.time f ≡ true
      → (b : Bytes) × (formatted sys nm f level e ≡ ok b)
  unfolding format
  formatted-returns level e n none h k m = absurd (ground (arith, k))
  formatted-returns level e n (some f) h k m = format_items-returns level e n h f.items m

  log_sink-returns :
      (now : ℕ) (s : LogSink) (level : Level) (e : LogEvent) (n : Bytes) (a : Appender)
      → nm e.event_logger ≡ ok n
      → is_set a.own_formatter ≡ true
      → formatter_fits sys e.time a.own_formatter ≡ true
      → (r : Appender × List Written) × (log_sink sys nm now s level e a ≡ ok r)
  log_sink-returns now stdout_sink level e n a h k m =
      let (b, p) = formatted-returns level e n a.own_formatter h k m in
      ((a, on_stdout b ∷ []), rw p refl)
  log_sink-returns now (file_sink filename st last_time) level e n a h k m =
      let (b, p) = formatted-returns level e n a.own_formatter h k m in
      (write_file sys now filename (current sys now filename st last_time) b a, rw p refl)

  -- An appender that has a formatter logs.
  pub append-returns :
      (now : ℕ) (level : Level) (e : LogEvent) (n : Bytes) (a : Appender)
      → nm e.event_logger ≡ ok n
      → is_set a.own_formatter ≡ true
      → formatter_fits sys e.time a.own_formatter ≡ true
      → (r : Appender × List Written) × (append sys nm now level e a ≡ ok r)
  unfolding append
  append-returns now level e n a h k m = elim (Bool-cases (leb a.min_level level)) [
    | inl x ↦ rw x (log_sink-returns now a.sink level e n a h k m)
    | inr x ↦ ((a, []), rw x refl)
  ]

pub all_fit-alike :
    (sys : System) (time : ℕ) (cs ds : List Appender) (ps : List ℕ)
    → SameFormatters cs ds
    → all_fit sys time ds ps ≡ all_fit sys time cs ps
all_fit-alike sys time cs ds [] h = refl
all_fit-alike sys time cs ds (p ∷ ps) h = rw (h p, all_fit-alike sys time cs ds ps h) refl
