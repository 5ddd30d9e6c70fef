-- ===== src/Env.antt =====
-- src/system/env.cc: the table of arguments, the loop of `Env::init` over them, the helps, and paths. The
-- map is the list of its keys with their values, and a text the list of its bytes. What readlink answers,
-- and so the directory `cwd`, is an argument.
pub mod Table
pub mod Options
mod Tests
use hpgs.Prelude.Text.{codes, same_text}
use hpgs.Prelude.{
  ℕ, Bool, true, false, not, List, [], ◌∷◌, ◌++◌, Option, none, some, ◌==◌, if◌then◌else◌,
}

pub record Env : Type 0 where
  pub args : List (List ℕ × List ℕ)
  pub helps : List (List ℕ × List ℕ)
  pub cwd : List ℕ

abbrev pub assign : List ℕ → List ℕ → List (List ℕ × List ℕ) → List (List ℕ × List ℕ)
assign key val [] = (key, val) ∷ []
assign key val ((k, v) ∷ xs) =
    let rest = assign key val xs in if same_text k key then (k, val) ∷ xs else (k, v) ∷ rest

abbrev pub find : List ℕ → List (List ℕ × List ℕ) → Option (List ℕ)
find key [] = none
find key ((k, v) ∷ xs) = let rest = find key xs in if same_text k key then some v else rest

abbrev pub without : List ℕ → List (List ℕ × List ℕ) → List (List ℕ × List ℕ)
without key [] = []
without key ((k, v) ∷ xs) =
    let rest = without key xs in if same_text k key then rest else (k, v) ∷ rest

-- `Env::add`, `has`, `del` and `get`.
unfoldable pub add : List ℕ → List ℕ → Env → Env
add key val e = record e { args = assign key val e.args }

abbrev pub is_some : Option (List ℕ) → Bool
is_some none = false
is_some (some v) = true

unfoldable pub has : List ℕ → Env → Bool
has key e = is_some (find key e.args)

unfoldable pub del : List ℕ → Env → Env
del key e = record e { args = without key e.args }

abbrev pub or_default : List ℕ → Option (List ℕ) → List ℕ
or_default default_value none = default_value
or_default default_value (some v) = v

unfoldable pub get : List ℕ → List ℕ → Env → List ℕ
get key default_value e = or_default default_value (find key e.args)

-- `Env::removeHelp` and `addHelp`.
unfoldable pub remove_help : List ℕ → Env → Env
remove_help key e = record e { helps = without key e.helps }

unfoldable pub add_help : List ℕ → List ℕ → Env → Env
unfolding remove_help
add_help key desc e =
    let removed = remove_help key e in record removed { helps = removed.helps ++ (key, desc) ∷ [] }

abbrev pub add_now : Option (List ℕ) → Env → Env
add_now none e = e
add_now (some now_key) e = add now_key [] e

-- What one argument is: an option with its name, or not one.
abbrev pub option_name : List ℕ → Option (List ℕ)
option_name [] = none
option_name (c ∷ []) = none
option_name (c ∷ d ∷ cs) = if c == b'-' then some (d ∷ cs) else none

-- The loop of `Env::init`, with `now_key`, and its end.
abbrev pub init_loop : Option (List ℕ) → List (List ℕ) → Env → Bool × Env
init_loop now_key [] e = (true, add_now now_key e)
init_loop now_key (arg ∷ argv) e = elim (option_name arg) [
  | none ↦ (false, e)
  | some name ↦ init_loop (some name) argv (add_now now_key e)
]

-- `Env::init` behind readlink.
unfoldable pub init : List (List ℕ) → Env → Bool × Env
unfolding add
init argv e = init_loop none argv e

-- `Env::getAbsolutePath`.
unfoldable pub get_absolute_path : List ℕ → Env → List ℕ
get_absolute_path [] e = b'/' ∷ []
get_absolute_path (c ∷ cs) e = if c == b'/' then c ∷ cs else e.cwd ++ c ∷ cs

-- `Env::getConfigPath`.
unfoldable pub get_config_path : Env → List ℕ
unfolding get get_absolute_path
get_config_path e = get_absolute_path (get (codes "c") (codes "conf") e) e
