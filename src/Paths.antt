-- ===== src/Paths.antt =====
-- src/util/util.cc: `FSUtil::Dirname` and `FSUtil::Basename`, on the bytes of a name.
pub mod Split
mod Tests
use hpgs.Prelude.{
  ℕ, zero, suc, Bool, true, false, List, [], ◌∷◌, Option, none, some, take, drop, ◌==◌,
  if◌then◌else◌,
}

-- `rfind` of a character.
abbrev pub rfind_step : ℕ → ℕ → Option ℕ → Option ℕ
rfind_step c x (some i) = some (suc i)
rfind_step c x none = if x == c then some 0 else none

pub rfind : ℕ → List ℕ → Option ℕ
rfind c [] = none
rfind c (x ∷ xs) = rfind_step c x (rfind c xs)

-- '/' and '.'.
abbrev pub slash : ℕ
slash = 47

abbrev pub dot : ℕ
dot = 46

abbrev pub dirname_at : List ℕ → Option ℕ → List ℕ
dirname_at name none = dot ∷ []
dirname_at name (some zero) = slash ∷ []
dirname_at name (some (suc p)) = take (suc p) name

-- `FSUtil::Dirname`; an empty name has no slash.
pub dirname : List ℕ → List ℕ
dirname [] = dot ∷ []
dirname (x ∷ xs) = dirname_at (x ∷ xs) (rfind slash (x ∷ xs))

abbrev pub basename_at : List ℕ → Option ℕ → List ℕ
basename_at name none = name
basename_at name (some p) = drop (suc p) name

-- `FSUtil::Basename`.
pub basename : List ℕ → List ℕ
basename [] = []
basename (x ∷ xs) = basename_at (x ∷ xs) (rfind slash (x ∷ xs))
