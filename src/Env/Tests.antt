-- ===== src/Env/Tests.antt =====
-- The arguments of myhttp/env.cpp on concrete command lines.
use http_practice.Prelude.{◌≡◌, refl, true, false, List, [], ◌∷◌, none, some}
use http_practice.Prelude.Text.{Bytes, bytes}
use http_practice.Env.State.{
  new_env, get, has, init, is_some, or_default, add_help, remove_help, get_absolute_path,
}
use http_practice.Env.Arguments.{command_line, last_value, init-command_line}

abbrev some_options : List (Bytes × Bytes)
some_options =
    (bytes "d", []) ∷ (bytes "c", bytes "/etc") ∷ (bytes "c", bytes "/opt") ∷ (bytes "p", []) ∷ []

init-command_line_example :
    ((init (some (bytes "/bin/x")) (bytes "x") (command_line some_options) new_env).1 ≡ true)
    × (get
          (bytes "c")
          []
          (init (some (bytes "/bin/x")) (bytes "x") (command_line some_options) new_env).0
        ≡ or_default (last_value some_options (bytes "c") none) [])
    × (has
          (bytes "c")
          (init (some (bytes "/bin/x")) (bytes "x") (command_line some_options) new_env).0
        ≡ is_some (last_value some_options (bytes "c") none))
init-command_line_example =
    init-command_line (bytes "/bin/x") (bytes "x") some_options (bytes "c") [] new_env
      ((refl, refl), ((refl, refl), ((refl, refl), ((refl, refl), tt))))

-- A value without a key stops the reading.
value_first : (init (some (bytes "/bin/x")) (bytes "x") (bytes "v" ∷ []) new_env).1 ≡ false
unfolding init
value_first = refl

dash_stops : (init (some (bytes "/bin/x")) (bytes "x") (bytes "-" ∷ []) new_env).1 ≡ false
unfolding init
dash_stops = refl

relative_path :
    get_absolute_path (bytes "conf") (init (some (bytes "/bin/x")) (bytes "x") [] new_env).0
    ≡ bytes "/bin/conf"
unfolding init get_absolute_path
relative_path = refl

help_once :
    (add_help (bytes "d") (bytes "new") (add_help (bytes "d") (bytes "old") new_env)).helps
    ≡ (bytes "d", bytes "new") ∷ []
unfolding add_help remove_help
help_once = refl
