-- ===== src/Env/Arguments.antt =====
-- The arguments that `Env::init` of myhttp/env.cpp reads, as a command line gives them.
use http_practice.Prelude.{
  ◌≡◌, refl, ap, ◌∙◌, Bool, true, false, List, [], ◌∷◌, ◌++◌, Option, none, some, arith, ◌==◌,
  if◌then◌else◌,
}
use http_practice.Prelude.Text.{Bytes, eq_bytes, less_bytes}
use http_practice.Prelude.SortedMap.{find, find-assign}
use http_practice.Prelude.Keys.{by_bytes, same-eq_bytes}
use http_practice.Prelude.Splice.{All}
use http_practice.Env.State.{
  Env, add, get, has, is_some, or_default, flush, argument, parse_arg, parse_args, init, parent,
  before_last,
}

-- A command line: each option is its key behind a dash, then its value if there is one.
abbrev pub command_line : List (Bytes × Bytes) → List Bytes
command_line [] = []
command_line ((key, []) ∷ opts) = (b'-' ∷ key) ∷ command_line opts
command_line ((key, c ∷ val) ∷ opts) = (b'-' ∷ key) ∷ (c ∷ val) ∷ command_line opts

abbrev pub starts_dash : Bytes → Bool
starts_dash [] = false
starts_dash (c ∷ s) = c == b'-'

abbrev pub is_key : Bytes → Bool
is_key [] = false
is_key (c ∷ s) = true

-- An option that can be told: its key has a letter, and its value does not start with a dash.
abbrev pub IsOption : Bytes × Bytes → Type 0
IsOption o = (is_key o.0 ≡ true) × (starts_dash o.1 ≡ false)

abbrev pub add_all : List (Bytes × Bytes) → Env → Env
add_all [] e = e
add_all (o ∷ opts) e = add_all opts (add o.0 o.1 e)

argument-value :
    (next : Option Bytes → Env → Env × Bool) (key val : Bytes) (c : _) (e : Env)
    → (c == b'-') ≡ false
    → parse_arg next (argument (c ∷ val)) (some key) e ≡ next none (add key (c ∷ val) e)
argument-value next key [] c e h = rw h refl
argument-value next key (d ∷ val) c e h = rw h refl

parse_args-command_line :
    (opts : List (Bytes × Bytes)) (now_key : Option Bytes) (e : Env)
    → All IsOption opts
    → parse_args (command_line opts) now_key e ≡ (add_all opts (flush now_key e), true)
parse_args-command_line [] now_key e h = refl
parse_args-command_line (([], v) ∷ opts) now_key e ((h, k), hs) = absurd (ground (arith, h))
parse_args-command_line ((a ∷ key, []) ∷ opts) now_key e (h, hs) =
    parse_args-command_line opts (some (a ∷ key)) (flush now_key e) hs
parse_args-command_line ((a ∷ key, c ∷ val) ∷ opts) now_key e ((h, k), hs) =
    argument-value (parse_args (command_line opts)) (a ∷ key) val c (flush now_key e) k
    ∙ parse_args-command_line opts none (add (a ∷ key) (c ∷ val) (flush now_key e)) hs

-- The last value of a key among the options, or the one before.
abbrev pub last_value : List (Bytes × Bytes) → Bytes → Option Bytes → Option Bytes
last_value [] key v = v
last_value (o ∷ opts) key v = last_value opts key (if eq_bytes key o.0 then some o.1 else v)

find-add_all :
    (opts : List (Bytes × Bytes)) (key : Bytes) (e : Env)
    → find less_bytes key (add_all opts e).args ≡ last_value opts key (find less_bytes key e.args)
unfolding add
find-add_all [] key e = refl
find-add_all (o ∷ opts) key e =
    find-add_all opts key (add o.0 o.1 e)
    ∙ ap (last_value opts key) (
        find-assign by_bytes key o.0 o.1 e.args
        ∙ ap (λ t. if t then some o.1 else find less_bytes key e.args) (same-eq_bytes key o.0))

-- init on a command line of options, each a key that is not empty behind a dash, and behind it
-- its value, which does not start with a dash, unless that is empty, succeeds where readlink
-- does, and get and has then give of any key the last value on the command line, or what was
-- there before.
pub init-command_line :
    (path program : Bytes) (opts : List (Bytes × Bytes)) (key default_value : Bytes) (e : Env)
    → All IsOption opts
    → ((init (some path) program (command_line opts) e).1 ≡ true)
      × (get key default_value (init (some path) program (command_line opts) e).0
          ≡ or_default (last_value opts key (find less_bytes key e.args)) default_value)
      × (has key (init (some path) program (command_line opts) e).0
          ≡ is_some (last_value opts key (find less_bytes key e.args)))
unfolding init get has
init-command_line path program opts key default_value e h =
    let e' = record e {
      exe = path;
      cwd = parent (before_last path) path ++ (b'/' ∷ []);
      program = program;
    } in
    let run = parse_args-command_line opts none e' h in
    let found =
      ap (λ (r : Env × Bool). find less_bytes key r.0.args) run ∙ find-add_all opts key e' in
    (ap (λ (r : Env × Bool). r.1) run, ap (λ t. or_default t default_value) found, ap is_some found)
