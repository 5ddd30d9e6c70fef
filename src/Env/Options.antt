-- ===== src/Env/Options.antt =====
-- Which arguments `Env::init` accepts, and what is in the table afterwards.
use hpgs.Prelude.Text.{same_text}
use hpgs.Prelude.{
  ℕ, ◌≡◌, ◌≢◌, refl, ap, sym, ◌∙◌, Bool, true, false, ◌&&◌, ◌||◌, List, [], ◌∷◌, Option, none, some,
  if◌then◌else◌, inl, inr, Option-cases,
}
use hpgs.Env.{Env, add, has, find, is_some, add_now, option_name, init_loop, init}
use hpgs.Env.Table.{find-assign}

-- A dash and a name.
abbrev pub is_option : List ℕ → Bool
is_option arg = is_some (option_name arg)

abbrev pub all_options : List (List ℕ) → Bool
all_options [] = true
all_options (arg ∷ argv) = is_option arg && all_options argv

abbrev pub is_key : List ℕ → Option (List ℕ) → Bool
is_key key none = false
is_key key (some name) = same_text name key

-- Whether one of the arguments is a dash and the key.
abbrev pub named_in : List ℕ → List (List ℕ) → Bool
named_in key [] = false
named_in key (arg ∷ argv) = is_key key (option_name arg) || named_in key argv

has-add : (key k val : List ℕ) (e : Env) → has key (add k val e) ≡ (same_text k key || has key e)
unfolding has add
has-add key k val e =
    rw (find-assign key k val e.args) (by_flag (same_text k key) (find key e.args))
  where
    by_flag :
        (b : Bool) (o : Option (List ℕ)) → is_some (if b then some val else o) ≡ (b || is_some o)
    by_flag true o = refl
    by_flag false o = refl

has-add_now :
    (key : List ℕ) (o : Option (List ℕ)) (e : Env)
    → has key (add_now o e) ≡ (is_key key o || has key e)
has-add_now key none e = refl
has-add_now key (some k) e = has-add key k [] e

init_loop-accepts :
    (o : Option (List ℕ)) (argv : List (List ℕ)) (e : Env)
    → (init_loop o argv e).0 ≡ all_options argv
init_loop-accepts o [] e = refl
init_loop-accepts o (arg ∷ argv) e = elim (Option-cases (option_name arg)) [
  | inl h ↦ rw (init_loop, h) refl
  | inr (name, h) ↦ rw (init_loop, h) (init_loop-accepts (some name) argv (add_now o e))
]

init_loop-has :
    (key : List ℕ) (o : Option (List ℕ)) (argv : List (List ℕ)) (e : Env)
    → all_options argv ≡ true
    → has key (init_loop o argv e).1 ≡ (has key e || (is_key key o || named_in key argv))
init_loop-has key o [] e h = has-add_now key o e ∙ at_end (is_key key o) (has key e)
  where
    at_end : (p x : Bool) → (p || x) ≡ (x || (p || false))
    at_end true true = refl
    at_end true false = refl
    at_end false true = refl
    at_end false false = refl
init_loop-has key o (arg ∷ argv) e h = elim (Option-cases (option_name arg)) [
  | inl n ↦ absurd (clash (sym (ap (λ x. is_some x && all_options argv) n) ∙ h))
  | inr (name, s) ↦
      rw (init_loop, s)
        (init_loop-has key (some name) argv (add_now o e)
            (sym (ap (λ x. is_some x && all_options argv) s) ∙ h)
          ∙ rw (has-add_now key o e)
              (around (is_key key o) (has key e) (same_text name key || named_in key argv)))
]
  where
    clash : false ≢ true
    clash e = cc

    around : (p x r : Bool) → ((p || x) || r) ≡ (x || (p || r))
    around true true r = refl
    around true false r = refl
    around false true r = refl
    around false false r = refl

-- `Env::init` answers true where each argument, the name of the program included, is a dash and a name.
pub init-accepts : (argv : List (List ℕ)) (e : Env) → (init argv e).0 ≡ all_options argv
unfolding init
init-accepts argv e = init_loop-accepts none argv e

-- After that, a key is in the table where it was before or is the name of an argument.
pub init-has :
    (key : List ℕ) (argv : List (List ℕ)) (e : Env)
    → all_options argv ≡ true
    → has key (init argv e).1 ≡ (has key e || named_in key argv)
unfolding init
init-has key argv e h = init_loop-has key none argv e h
