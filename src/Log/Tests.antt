-- ===== src/Log/Tests.antt =====
-- Runs of the log at concrete inputs.
use http_practice.Prelude.{
  ℕ, ◌≡◌, refl, true, false, List, [], ◌∷◌, ◌++◌, Option, none, some, arith, get_elem?, leb, length,
  ◌<◌, if◌then◌else◌,
}
use http_practice.Prelude.Int.{pos}
use http_practice.Prelude.Results.{Result, ok, err, Returns, After}
use http_practice.Prelude.Text.{Bytes, bytes}
use http_practice.Log.Levels.{info, error, from_string}
use http_practice.Log.Pattern.{
  Part, text, directive, message_item, level_item, date_time_item, string_item, parse,
  new_formatter,
}
use http_practice.Log.Printing.{written, new_formatter-written}
use http_practice.Log.Rounds.{new_formatter-trailing_percent}
use http_practice.Log.Formatting.{LogEvent, System, format}
use http_practice.Log.Appenders.{Stream, file_sink, Appender, Written, append}
use http_practice.Log.Loggers.{
  Logger, Logging, new_logger, default_pattern, name_of, log, log_event, get_logger,
  new_logger_manager,
}
use http_practice.Log.Defines.{LogDefine, silenced, on_change}
use http_practice.Log.Ready.{Kept}
use http_practice.Log.Fitting.{Fits, formatter_fits, all_fit}
use http_practice.Log.History.{Logged, starts, names, Logged-log_event, get_logger-get_logger}
use http_practice.Log.Changes.{is_ok, on_change-unchanged}
use http_practice.Log.Failing.{append_all, append_all-refused}
use http_practice.Log.Output.{all_stdout, shown, log-stdout}

abbrev a_pattern : List Part
a_pattern =
    directive (bytes "d") (bytes "%H:%M")
    ∷ text (bytes "m [")
    ∷ directive (bytes "p") []
    ∷ text (bytes "] ")
    ∷ directive (bytes "m") []
    ∷ []

new_formatter-written_example : new_formatter (written a_pattern) ≡ record {
  pattern = bytes "%d{%H:%M}m [%p] %m";
  items =
      date_time_item (bytes "%H:%M")
      ∷ string_item (bytes "m [")
      ∷ level_item
      ∷ string_item (bytes "] ")
      ∷ message_item
      ∷ [];
  is_error = false;
}
new_formatter-written_example =
    new_formatter-written a_pattern
      ((refl, refl, ((refl, refl, ((refl, refl, ((refl, refl, ((refl, refl, tt))))))))))

default_pattern_test : (new_formatter default_pattern).is_error ≡ false
unfolding new_formatter parse
default_pattern_test = refl

double_percent_test :
    (new_formatter (bytes "%%m")).items ≡ string_item (bytes "%") ∷ message_item ∷ []
unfolding new_formatter parse
double_percent_test = refl

new_formatter-trailing_percent_example : (new_formatter (bytes "at 100%%")).is_error ≡ true
new_formatter-trailing_percent_example = new_formatter-trailing_percent (bytes "at 100") refl

from_string_test : from_string (bytes "Warn") ≡ 3
unfolding from_string
from_string_test = refl

-- A system whose disk is full, and whose `strftime` gives the format back, as it does for one with
-- no percent sign.
abbrev a_system : System
a_system = record { strftime = λ f t. f; opens = λ t f. true; accepts = λ t f. false }

abbrev an_event : LogEvent
an_event = record {
  event_logger = 0;
  event_level = info;
  file = bytes "a.cc";
  line = pos 7;
  elapse = 0;
  thread_id = 3;
  fiber_id = 1;
  time = 9;
  thread_name = bytes "main";
  content = bytes "hi";
}

abbrev state_of : Result Logging → Logging
state_of (ok s) = s
state_of (err f) = record { loggers = []; all_appenders = []; written = []; named = []; root = 0 }

abbrev logger_of : Option Logger → Logger
logger_of (some l) = l
logger_of none = record {
  name = [];
  level = 0;
  appenders = [];
  formatter = none;
  root_logger = none;
}

abbrev first_state : Logging
first_state = state_of new_logger_manager

abbrev first_logger : Logger
first_logger = logger_of (get_elem? first_state.loggers 0)

first_state-Logged : Logged a_system first_state
unfolding new_logger_manager
first_state-Logged = starts refl

first_logger_found : get_elem? first_state.loggers 0 ≡ some first_logger
unfolding new_logger_manager
first_logger_found = refl

-- A logger with no appenders, whose events the root logger logs.
abbrev second_state : Logging
second_state = (get_logger (bytes "http") first_state).0

abbrev second_logger : Logger
second_logger = logger_of (get_elem? second_state.loggers 1)

second_logger_found : get_elem? second_state.loggers 1 ≡ some second_logger
unfolding get_logger new_logger_manager new_logger
second_logger_found = refl

second_logger-Fits : Fits a_system 9 second_state second_logger
unfolding get_logger new_logger_manager new_logger new_formatter parse
second_logger-Fits = refl

abbrev second_event : LogEvent
second_event = record an_event { event_logger = 1 }

Logged-log_event_example :
    Returns (log_event a_system 9 second_event second_state) (Kept second_state)
Logged-log_event_example =
    Logged-log_event a_system 9 second_event second_state second_logger second_logger-Fits
      (names first_state-Logged (bytes "http")) second_logger_found

-- A date of 64 characters does not fit.
long_date_test :
    formatter_fits a_system 9 (
      some (
        new_formatter
          (bytes "%d{0123456789012345678901234567890123456789012345678901234567890123}")))
    ≡ false
unfolding new_formatter parse
long_date_test = refl

get_logger-get_logger_example :
    (let (t, h) = get_logger (bytes "http") first_state in
      (name_of t.loggers h ≡ ok (bytes "http")) × (get_logger (bytes "http") t ≡ (t, h)))
get_logger-get_logger_example =
    get_logger-get_logger a_system (bytes "http") first_state first_state-Logged

abbrev a_define : LogDefine
a_define = record {
  logger_name = bytes "http";
  logger_level = info;
  logger_formatter = [];
  define_appenders = [];
}

abbrev another_define : LogDefine
another_define = record a_define { logger_name = bytes "timer" }

on_change-unchanged_example :
    is_ok
      (on_change a_system 9 an_event (a_define ∷ []) (another_define ∷ a_define ∷ []) first_state)
    ≡ false
on_change-unchanged_example =
    on_change-unchanged a_system 9 an_event (a_define ∷ []) (another_define ∷ []) [] a_define
      a_define first_state refl refl

abbrev silent_state : Logging
silent_state = state_of (silenced a_system 9 (first_state, 0))

name_anyone : ℕ → Result Bytes
name_anyone h = ok (bytes "http")

abbrev a_stream : Stream
a_stream = record { is_open = true; is_good = true }

abbrev a_file : Appender
a_file = record {
  min_level = info;
  own_formatter = some (new_formatter (bytes "%m"));
  sink = file_sink (bytes "a.log") a_stream 4;
}

abbrev after_of : Result (Appender × List Written) → Appender × List Written
after_of (ok r) = r
after_of (err f) = (a_file, [])

abbrev full_file : Appender × List Written
full_file = after_of (append a_system name_anyone 9 info an_event a_file)

full_file_reached :
    append a_system name_anyone 9 info an_event a_file ≡ ok (full_file.0, full_file.1)
unfolding append new_formatter parse format
full_file_reached = refl

append_all-refused_example :
    After
      (λ (r : Appender × List Written). r.1 ≡ [])
      (append_all a_system name_anyone
        ((10, info, an_event) ∷ (11, error, an_event) ∷ [])
        full_file.0)
append_all-refused_example =
    append_all-refused a_system name_anyone 9 info an_event a_file full_file.0 (bytes "a.log")
      a_stream 4 full_file.1 ((10, info, an_event) ∷ (11, error, an_event) ∷ []) refl refl refl refl
      refl full_file_reached

first_state_stdout : all_stdout first_state.all_appenders first_logger.appenders ≡ true
unfolding new_logger_manager new_logger
first_state_stdout = refl

first_state_fits : all_fit a_system 9 first_state.all_appenders first_logger.appenders ≡ true
unfolding new_logger_manager new_logger new_formatter parse
first_state_fits = refl

first_state_appenders : 0 < length first_logger.appenders
unfolding new_logger_manager
first_state_appenders = omega arith

first_logger_name : name_of first_state.loggers 0 ≡ ok (bytes "root")
unfolding new_logger_manager new_logger
first_logger_name = refl

log-stdout_example :
    log a_system 9 1 0 error an_event first_state
    ≡ ok (
        if leb first_logger.level error
        then record first_state {
          written =
              first_state.written
              ++ shown a_system
                  (name_of first_state.loggers)
                  first_state.all_appenders
                  first_logger.appenders
                  error
                  an_event;
        }
        else first_state)
log-stdout_example =
    log-stdout a_system 9 0 0 first_logger error an_event (bytes "root") first_state
      first_logger_found first_logger_name first_state_stdout first_state_fits first_state_appenders
