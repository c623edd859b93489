-- ===== src/Log/Defines.antt =====
-- The `logs` configuration of myhttp/log.cpp: its definitions and the listener of `LogIniter`.
use http_practice.Prelude.{
  ℕ, Bool, true, false, not, ◌&&◌, List, [], ◌∷◌, Option, none, some, ◌==◌, if◌then◌else◌,
}
use http_practice.Prelude.Results.{Result, ok, ◌>>=◌}
use http_practice.Prelude.Text.{Bytes, eq_bytes, is_empty}
use http_practice.Log.Levels.{Level}
use http_practice.Log.Pattern.{new_formatter}
use http_practice.Log.Formatting.{LogEvent, System}
use http_practice.Log.Appenders.{Appender, set_formatter, new_stdout_appender, new_file_appender}
use http_practice.Log.Loggers.{
  Logging, set_level, set_pattern, clear_appenders, add_appender, get_logger, new_appender, deref,
  log_event,
}

-- 1 is a file, 2 the standard output.
pub record LogAppenderDefine : Type 0 where
  pub type : ℕ
  pub define_level : Level
  pub define_formatter : Bytes
  pub define_file : Bytes

pub record LogDefine : Type 0 where
  pub logger_name : Bytes
  pub logger_level : Level
  pub logger_formatter : Bytes
  pub define_appenders : List LogAppenderDefine

abbrev eq_appender : LogAppenderDefine → LogAppenderDefine → Bool
eq_appender a b =
    (a.type == b.type)
    && (a.define_level == b.define_level)
    && eq_bytes a.define_formatter b.define_formatter
    && eq_bytes a.define_file b.define_file

abbrev eq_appenders : List LogAppenderDefine → List LogAppenderDefine → Bool
eq_appenders [] [] = true
eq_appenders (a ∷ cs) (b ∷ ds) = eq_appender a b && eq_appenders cs ds
eq_appenders _ _ = false

abbrev pub eq_define : LogDefine → LogDefine → Bool
eq_define a b =
    eq_bytes a.logger_name b.logger_name
    && (a.logger_level == b.logger_level)
    && eq_bytes a.logger_formatter b.logger_formatter
    && eq_appenders a.define_appenders b.define_appenders

-- `find` in a set whose order is that of the names.
abbrev pub find_define : LogDefine → List LogDefine → Option LogDefine
find_define d [] = none
find_define d (e ∷ es) = if eq_bytes d.logger_name e.logger_name then some e else find_define d es

module _ (sys : System) (now : ℕ) where
  -- Any other type leaves the pointer null.
  abbrev made_appender : LogAppenderDefine → Option Appender
  made_appender a =
      if a.type == 1
      then some (new_file_appender sys now a.define_file)
      else if a.type == 2
      then some new_stdout_appender
      else none

  -- A formatter of its own, if there is a pattern and it has no error.
  abbrev own_pattern : Bytes → Option Appender → Result (Option Appender)
  own_pattern pattern ap =
      let fmt = new_formatter pattern in
      let taken = deref ap >>= λ a. ok (some (set_formatter (some fmt) a)) in
      if is_empty pattern then ok ap else if fmt.is_error then ok ap else taken

  abbrev add_defined : ℕ → LogAppenderDefine → Logging → Result Logging
  add_defined h d s = do
    ap ← own_pattern d.define_formatter (made_appender d)
    a ← deref ap
    let (t, p) = new_appender (record a { min_level = d.define_level }) s in add_appender h p t

  abbrev add_all_defined : ℕ → List LogAppenderDefine → Logging → Result Logging
  add_all_defined h [] s = ok s
  add_all_defined h (d ∷ ds) s = do t ← add_defined h d s; add_all_defined h ds t

  -- What the listener does with the pointer it has for a definition.
  abbrev pub configure : Option ℕ → LogDefine → Logging → Result Logging
  configure logger d s = do
    h ← deref logger
    t ← set_level h d.logger_level s
    u ← if is_empty d.logger_formatter then ok t else set_pattern h d.logger_formatter t
    v ← clear_appenders h u
    add_all_defined h d.define_appenders v

  abbrev just_logger : Logging × ℕ → Logging × Option ℕ
  just_logger (s, h) = (s, some h)

  -- The pointer stays null for a definition that is unchanged.
  abbrev pub found_logger : Option LogDefine → LogDefine → Logging → Logging × Option ℕ
  found_logger none d s = just_logger (get_logger d.logger_name s)
  found_logger (some e) d s =
      if not (eq_define d e) then just_logger (get_logger d.logger_name s) else (s, none)

  abbrev pub configure_in : LogDefine → Logging × Option ℕ → Result Logging
  configure_in d (s, logger) = configure logger d s

  unfoldable pub configure_all : List LogDefine → List LogDefine → Logging → Result Logging
  configure_all old_value [] s = ok s
  configure_all old_value (d ∷ ds) s = do
    t ← configure_in d (found_logger (find_define d old_value) d s)
    configure_all old_value ds t

  abbrev pub silenced : Logging × ℕ → Result Logging
  silenced (s, h) = do t ← set_level h 100 s; clear_appenders h t

  unfoldable pub silence_all : List LogDefine → List LogDefine → Logging → Result Logging
  silence_all new_value [] s = ok s
  silence_all new_value (d ∷ ds) s = do
    t ← elim (find_define d new_value) [
      | none ↦ silenced (get_logger d.logger_name s)
      | some e ↦ ok s
    ]
    silence_all new_value ds t

  -- The listener, from the event that it logs first.
  unfoldable pub on_change : LogEvent → List LogDefine → List LogDefine → Logging → Result Logging
  unfolding configure_all silence_all
  on_change notice old_value new_value s = do
    t ← log_event sys now notice s
    u ← configure_all old_value new_value t
    silence_all new_value old_value u
