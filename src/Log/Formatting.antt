-- ===== src/Log/Formatting.antt =====
-- `LogEvent` and `LogFormatter::format` of myhttp/log.cpp, with the format items.
use http_practice.Prelude.{ℕ, suc, Bool, List, [], ◌∷◌, ◌++◌, ltb, if◌then◌else◌, length}
use http_practice.Prelude.Int.{ℤ, pos, negsuc}
use http_practice.Prelude.Results.{Result, ok, err, out_of_bounds, ◌>>=◌}
use http_practice.Prelude.Text.{Bytes, c_str, decimal}
use http_practice.Log.Levels.{Level, to_string}
use http_practice.Log.Pattern.{
  Item, message_item, level_item, elapse_item, name_item, thread_id_item, new_line_item,
  filename_item, line_item, tab_item, fiber_id_item, thread_name_item, date_time_item, string_item,
  LogFormatter,
}

-- The logger is its place in the table of `Log.Loggers`; `content` is the text of `m_ss`.
pub record LogEvent : Type 0 where
  pub event_logger : ℕ
  pub event_level : Level
  pub file : Bytes
  pub line : ℤ
  pub elapse : ℕ
  pub thread_id : ℕ
  pub fiber_id : ℕ
  pub time : ℕ
  pub thread_name : Bytes
  pub content : Bytes

-- The calls of the system: the text that `strftime` has for a local time, whether a file opens at a
-- time, and whether the stream takes what is written to it then.
pub record System : Type 0 where
  pub strftime : Bytes → ℕ → Bytes
  pub opens : ℕ → Bytes → Bool
  pub accepts : ℕ → Bytes → Bool

-- An `int32_t` written to a stream.
abbrev decimal_int : ℤ → Bytes
decimal_int (pos n) = decimal n
decimal_int (negsuc n) = b'-' ∷ decimal (suc n)

-- `strftime` leaves `buf` as it was, that is unset, if the text and its zero do not fit.
abbrev in_buffer : Bytes → Result Bytes
in_buffer s = if ltb (length s) 64 then ok s else err out_of_bounds

module _ (sys : System) (name_of : ℕ → Result Bytes) where
  abbrev pub format_item : Level → LogEvent → Item → Result Bytes
  format_item level e message_item = ok e.content
  format_item level e level_item = ok (to_string level)
  format_item level e elapse_item = ok (decimal e.elapse)
  format_item level e name_item = name_of e.event_logger
  format_item level e thread_id_item = ok (decimal e.thread_id)
  format_item level e thread_name_item = ok e.thread_name
  format_item level e fiber_id_item = ok (decimal e.fiber_id)
  format_item level e (date_time_item fmt) = in_buffer (sys.strftime (c_str fmt) e.time)
  format_item level e filename_item = ok e.file
  format_item level e line_item = ok (decimal_int e.line)
  format_item level e new_line_item = ok (b'\n' ∷ [])
  format_item level e (string_item s) = ok s
  format_item level e tab_item = ok (b'\t' ∷ [])

  abbrev pub format_items : Level → LogEvent → List Item → Result Bytes
  format_items level e [] = ok []
  format_items level e (i ∷ items) = do
    out ← format_item level e i
    rest ← format_items level e items
    ok (out ++ rest)

  unfoldable pub format : LogFormatter → Level → LogEvent → Result Bytes
  format f level e = format_items level e f.items
