-- ===== src/Log/Levels.antt =====
-- `LogLevel` of myhttp/log.cpp: a level is its number, since the code casts others to it.
use http_practice.Prelude.{
  ℕ, zero, suc, ap, ◌-◌, ◌≤◌, ◌≡◌, map, arith, leb, ◌==◌, ◌&&◌, if◌then◌else◌,
}
use http_practice.Prelude.Text.{Bytes, bytes, eq_bytes}

abbrev pub Level : Type 0
Level = ℕ

abbrev pub unknow : Level
unknow = 0

abbrev pub debug : Level
debug = 1

abbrev pub info : Level
info = 2

abbrev pub warn : Level
warn = 3

abbrev pub error : Level
error = 4

abbrev pub fatal : Level
fatal = 5

abbrev pub to_string : Level → Bytes
to_string level =
    if level == debug
    then bytes "DEBUG"
    else if level == info
    then bytes "INFO"
    else if level == warn
    then bytes "WARN"
    else if level == error
    then bytes "ERROR"
    else if level == fatal
    then bytes "FATAL"
    else bytes "UNKNOW"

-- `toupper` in the C locale.
abbrev pub to_upper : ℕ → ℕ
to_upper c = if leb b'a' c && leb c b'z' then c - 32 else c

abbrev pub level_of : Bytes → Level
level_of temp =
    if eq_bytes temp (bytes "DEBUG")
    then debug
    else if eq_bytes temp (bytes "INFO")
    then info
    else if eq_bytes temp (bytes "WARN")
    then warn
    else if eq_bytes temp (bytes "ERROR")
    then error
    else if eq_bytes temp (bytes "FATAL")
    then fatal
    else unknow

unfoldable pub from_string : Bytes → Level
from_string str = level_of (map to_upper str)

-- FromString reads the name of each level, in any case, as that level.
from_string-to_string :
    (l : Level) (s : Bytes) → l ≤ 5 → map to_upper s ≡ to_string l → from_string s ≡ l
unfolding from_string
from_string-to_string zero s h e = ap level_of e
from_string-to_string (suc zero) s h e = ap level_of e
from_string-to_string (suc (suc zero)) s h e = ap level_of e
from_string-to_string (suc (suc (suc zero))) s h e = ap level_of e
from_string-to_string (suc (suc (suc (suc zero)))) s h e = ap level_of e
from_string-to_string (suc (suc (suc (suc (suc zero))))) s h e = ap level_of e
from_string-to_string (suc (suc (suc (suc (suc (suc l)))))) s h e = absurd (omega (arith, h))
