-- ===== src/Trim/Tests.antt =====
-- Spaces around a word.
use hpgs.Prelude.{ℕ, ◌≡◌, refl, List, [], ◌∷◌}
use hpgs.Trim.{trim, trim_right, find_first_not_of, find_last_not_of}
use hpgs.Trim.Ends.{front_dropped, back_dropped, trim_lem}

abbrev space : List ℕ
space = 32 ∷ []

abbrev padded : List ℕ
padded = 32 ∷ 65 ∷ 32 ∷ 66 ∷ 32 ∷ []

trimmed : trim space padded ≡ 65 ∷ 32 ∷ 66 ∷ []
unfolding trim find_first_not_of find_last_not_of
trimmed = refl

-- Of a word with no delimiter before it nothing is left.
all_lost : trim_right space (65 ∷ 66 ∷ 32 ∷ []) ≡ []
unfolding trim_right find_first_not_of
all_lost = refl

trim_lem_example : trim space padded ≡ back_dropped space (front_dropped space padded)
trim_lem_example = trim_lem space padded
