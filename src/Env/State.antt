-- ===== src/Env/State.antt =====
-- `Env` of myhttp/env.h and myhttp/env.cpp. What readlink gives of the program's path, and the
-- variables of the process, are arguments.
use http_practice.Prelude.{
  ℕ, Bool, true, false, List, [], ◌∷◌, ◌++◌, Option, none, some, ◌==◌, if◌then◌else◌,
}
use http_practice.Prelude.Text.{Bytes, eq_bytes, less_bytes}
use http_practice.Prelude.SortedMap.{SortedMap, find, assign, erase}

pub record Env : Type 0 where
  pub args : SortedMap Bytes Bytes
  pub helps : List (Bytes × Bytes)
  pub program : Bytes
  pub exe : Bytes
  pub cwd : Bytes

abbrev pub new_env : Env
new_env = record { args = []; helps = []; program = []; exe = []; cwd = [] }

unfoldable pub add : Bytes → Bytes → Env → Env
add key val e = record e { args = assign less_bytes key val e.args }

abbrev pub is_some : Option Bytes → Bool
is_some none = false
is_some (some v) = true

unfoldable pub has : Bytes → Env → Bool
has key e = is_some (find less_bytes key e.args)

unfoldable pub del : Bytes → Env → Env
del key e = record e { args = erase less_bytes key e.args }

abbrev pub or_default : Option Bytes → Bytes → Bytes
or_default none default_value = default_value
or_default (some v) default_value = v

unfoldable pub get : Bytes → Bytes → Env → Bytes
get key default_value e = or_default (find less_bytes key e.args) default_value

abbrev pub without_key : Bytes → List (Bytes × Bytes) → List (Bytes × Bytes)
without_key key [] = []
without_key key (h ∷ hs) =
    let rest = without_key key hs in if eq_bytes h.0 key then rest else h ∷ rest

unfoldable pub remove_help : Bytes → Env → Env
remove_help key e = record e { helps = without_key key e.helps }

unfoldable pub add_help : Bytes → Bytes → Env → Env
add_help key desc e =
    let e' = remove_help key e in record e' { helps = e'.helps ++ ((key, desc) ∷ []) }

unfoldable pub get_absolute_path : Bytes → Env → Bytes
get_absolute_path [] e = b'/' ∷ []
get_absolute_path (c ∷ path) e = if c == b'/' then c ∷ path else e.cwd ++ (c ∷ path)

-- `m_exe.substr(0, m_exe.find_last_of("/"))`: all of it, if it has no slash.
abbrev pub cut_at : ℕ → Option Bytes → Option Bytes
cut_at c none = if c == b'/' then some [] else none
cut_at c (some t) = some (c ∷ t)

abbrev pub before_last : Bytes → Option Bytes
before_last [] = none
before_last (c ∷ s) = cut_at c (before_last s)

abbrev pub parent : Option Bytes → Bytes → Bytes
parent none exe = exe
parent (some dir) exe = dir

-- `if(now_key) add(now_key, "")`.
abbrev pub flush : Option Bytes → Env → Env
flush none e = e
flush (some key) e = add key [] e

-- What an element of `argv` is taken for: a key, which starts with a dash and is longer, a dash
-- alone, or a value.
pub data Argument : Type 0 where
  key_arg : Bytes → Argument
  dash_alone : Argument
  value_arg : Bytes → Argument

abbrev pub argument : Bytes → Argument
argument [] = value_arg []
argument (c ∷ []) = if c == b'-' then dash_alone else value_arg (c ∷ [])
argument (c ∷ d ∷ s) = if c == b'-' then key_arg (d ∷ s) else value_arg (c ∷ d ∷ s)

-- One turn of the loop over `argv`, with `now_key`, and what the others do.
abbrev pub parse_arg :
    (Option Bytes → Env → Env × Bool) → Argument → Option Bytes → Env → Env × Bool
parse_arg next (key_arg key) now_key e = next (some key) (flush now_key e)
parse_arg next dash_alone now_key e = (e, false)
parse_arg next (value_arg val) none e = (e, false)
parse_arg next (value_arg val) (some key) e = next none (add key val e)

abbrev pub parse_args : List Bytes → Option Bytes → Env → Env × Bool
parse_args [] now_key e = (flush now_key e, true)
parse_args (a ∷ argv) now_key e = parse_arg (parse_args argv) (argument a) now_key e

-- `init`: the path that readlink gives, or its failure, the program and the other arguments.
unfoldable pub init : Option Bytes → Bytes → List Bytes → Env → Env × Bool
init none program argv e = (e, false)
init (some path) program argv e = parse_args argv none (record e {
  exe = path;
  cwd = parent (before_last path) path ++ (b'/' ∷ []);
  program = program;
})
