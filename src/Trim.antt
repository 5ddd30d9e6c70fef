-- ===== src/Trim.antt =====
-- src/util/util.cc: `StringUtil::Trim`, `TrimLeft` and `TrimRight`. A place that is not found is `none`.
pub mod Ends
mod Tests
use hpgs.Prelude.{
  ℕ, zero, suc, ◌+◌, ◌-◌, Bool, true, false, not, ◌||◌, List, [], ◌∷◌, Option, none, some, ◌==◌,
  if◌then◌else◌, take, drop,
}

abbrev pub is_in : List ℕ → ℕ → Bool
is_in [] c = false
is_in (d ∷ delimit) c = d == c || is_in delimit c

abbrev pub later : Option ℕ → Option ℕ
later none = none
later (some i) = some (suc i)

-- `std::string::find_first_not_of` and `find_last_not_of`.
unfoldable pub find_first_not_of : List ℕ → List ℕ → Option ℕ
find_first_not_of delimit [] = none
find_first_not_of delimit (c ∷ str) =
    let rest = find_first_not_of delimit str in if is_in delimit c then later rest else some 0

abbrev pub or_here : Bool → Option ℕ → Option ℕ
or_here b (some i) = some (suc i)
or_here b none = if b then none else some 0

unfoldable pub find_last_not_of : List ℕ → List ℕ → Option ℕ
find_last_not_of delimit [] = none
find_last_not_of delimit (c ∷ str) = or_here (is_in delimit c) (find_last_not_of delimit str)

-- `str.substr(begin, end - begin + 1)`; to the end of the string where there is no end.
abbrev pub between : ℕ → Option ℕ → List ℕ → List ℕ
between begin none str = drop begin str
between begin (some end) str = take (suc end - begin) (drop begin str)

abbrev pub trim_from : List ℕ → Option ℕ → List ℕ → List ℕ
trim_from delimit none str = []
trim_from delimit (some begin) str = between begin (find_last_not_of delimit str) str

unfoldable pub trim : List ℕ → List ℕ → List ℕ
unfolding find_first_not_of find_last_not_of
trim delimit str = trim_from delimit (find_first_not_of delimit str) str

abbrev pub left_from : Option ℕ → List ℕ → List ℕ
left_from none str = []
left_from (some begin) str = drop begin str

unfoldable pub trim_left : List ℕ → List ℕ → List ℕ
unfolding find_first_not_of
trim_left delimit str = left_from (find_first_not_of delimit str) str

abbrev pub right_from : Option ℕ → List ℕ → List ℕ
right_from none str = []
right_from (some end) str = take end str

-- `TrimRight`, which looks for its end from the front.
unfoldable pub trim_right : List ℕ → List ℕ → List ℕ
unfolding find_first_not_of
trim_right delimit str = right_from (find_first_not_of delimit str) str
