-- ===== src/Env/Tests.antt =====
-- The command line `-d -c`, with and without the name of the program.
use hpgs.Prelude.Text.{codes}
use hpgs.Prelude.{ℕ, ◌≡◌, refl, false, List, [], ◌∷◌}
use hpgs.Env.{Env, init, get_config_path, add_help, remove_help}

abbrev empty : Env
empty = record { args = []; helps = []; cwd = codes "/srv/" }

abbrev two_options : List (List ℕ)
two_options = codes "-d" ∷ codes "-c" ∷ []

program_first : (init (codes "server" ∷ two_options) empty).0 ≡ false
unfolding init
program_first = refl

config : get_config_path empty ≡ codes "/srv/conf"
unfolding get_config_path
config = refl

one_help :
    (add_help (codes "d") (codes "again") (add_help (codes "d") (codes "daemon") empty)).helps
    ≡ (codes "d", codes "again") ∷ []
unfolding add_help remove_help
one_help = refl
