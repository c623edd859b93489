-- ===== src/Log/Appenders.antt =====
-- `LogAppender`, `StdoutLogAppender` and `FileLogAppender` of myhttp/log.cpp.
use http_practice.Prelude.{
  ℕ, Bool, true, false, not, ◌&&◌, List, [], ◌∷◌, Option, none, some, leb, ◌==◌, if◌then◌else◌,
}
use http_practice.Prelude.Results.{Result, ok, err, null_pointer, ◌>>=◌}
use http_practice.Prelude.Text.{Bytes}
use http_practice.Log.Levels.{Level, debug}
use http_practice.Log.Pattern.{LogFormatter}
use http_practice.Log.Formatting.{LogEvent, System, format}

-- An `std::ofstream`: whether its buffer has a file, and whether it converts to true.
pub record Stream : Type 0 where
  pub is_open : Bool
  pub is_good : Bool

-- The classes: a file's appender has `m_filename`, `m_filestream` and `m_lastTime`.
pub data LogSink : Type 0 where
  stdout_sink : LogSink
  file_sink : Bytes → Stream → ℕ → LogSink

pub record Appender : Type 0 where
  pub min_level : Level
  pub own_formatter : Option LogFormatter
  pub sink : LogSink

-- Log texts in the order in which they are put out.
pub data Written : Type 0 where
  on_stdout : Bytes → Written
  on_file : Bytes → Bytes → Written

abbrev pub set_formatter : Option LogFormatter → Appender → Appender
set_formatter val a = record a { own_formatter = val }

-- `m_formatter->format`.
abbrev pub formatted :
    System → (ℕ → Result Bytes) → Option LogFormatter → Level → LogEvent → Result Bytes
formatted sys name_of none level e = err null_pointer
formatted sys name_of (some f) level e = format sys name_of f level e

-- A stream that has failed is not closed, and `open` fails on a stream that has a file.
unfoldable pub reopen : System → ℕ → Bytes → Stream → Stream
reopen sys now filename st =
    if st.is_open && not st.is_good
    then st
    else if sys.opens now filename
    then record { is_open = true; is_good = true }
    else record { is_open = false; is_good = false }

-- A stream that has failed takes nothing.
abbrev pub takes : System → ℕ → Bytes → Stream → Bool
takes sys now filename st = st.is_open && st.is_good && sys.accepts now filename

abbrev pub after_write : Bool → Stream → Stream
after_write true st = st
after_write false st = record st { is_good = false }

abbrev pub new_stdout_appender : Appender
new_stdout_appender = record { min_level = debug; own_formatter = none; sink = stdout_sink }

unfoldable pub new_file_appender : System → ℕ → Bytes → Appender
unfolding reopen
new_file_appender sys now filename = record {
  min_level = debug;
  own_formatter = none;
  sink =
      file_sink filename (reopen sys now filename (record { is_open = false; is_good = true })) 0;
}

-- What one call puts out.
abbrev pub put : Bool → Bytes → Bytes → List Written
put accepted filename out = if accepted then on_file filename out ∷ [] else []

abbrev pub write_file : System → ℕ → Bytes → Stream → Bytes → Appender → Appender × List Written
write_file sys now filename st out a =
    let accepted = takes sys now filename st in
    (
      record a { sink = file_sink filename (after_write accepted st) now },
      put accepted filename out,
    )

-- The file is opened again in each new second.
abbrev pub current : System → ℕ → Bytes → Stream → ℕ → Stream
current sys now filename st last_time = if now == last_time then st else reopen sys now filename st

abbrev pub log_sink :
    System
    → (ℕ → Result Bytes)
    → ℕ
    → LogSink
    → Level
    → LogEvent
    → Appender
    → Result (Appender × List Written)
log_sink sys name_of now stdout_sink level e a = do
  out ← formatted sys name_of a.own_formatter level e
  ok (a, on_stdout out ∷ [])
log_sink sys name_of now (file_sink filename st last_time) level e a = do
  out ← formatted sys name_of a.own_formatter level e
  ok (write_file sys now filename (current sys now filename st last_time) out a)

-- The virtual `log`, at the time `now`.
unfoldable pub append :
    System → (ℕ → Result Bytes) → ℕ → Level → LogEvent → Appender → Result (Appender × List Written)
append sys name_of now level e a =
    let run = log_sink sys name_of now a.sink level e a in
    if leb a.min_level level then run else ok (a, [])
