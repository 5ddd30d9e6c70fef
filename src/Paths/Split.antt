-- ===== src/Paths/Split.antt =====
-- A name is its directory, a slash and its last part.
use hpgs.Prelude.{
  ℕ, zero, suc, ◌≡◌, ◌⊎◌, inl, inr, refl, ap, sym, false, Bool-cases, ==_iff, List, [], ◌∷◌, ◌++◌,
}
use hpgs.Prelude.{Option, none, some, take, drop, All, ◌==◌}
use hpgs.Paths.{rfind, rfind_step, slash, dot, dirname, dirname_at, basename, basename_at}

abbrev pub Without : ℕ → List ℕ → Type 0
Without c xs = All (λ x. (x == c) ≡ false) xs

-- What stands before and behind the last `c`.
abbrev Splits : ℕ → List ℕ → Option ℕ → Type 0
Splits c xs none = Without c xs
Splits c xs (some i) = (take i xs ++ c ∷ drop (suc i) xs ≡ xs) × Without c (drop (suc i) xs)

rfind_step-Splits :
    (c x : ℕ) (xs : List ℕ) (o : Option ℕ) → Splits c xs o → Splits c (x ∷ xs) (rfind_step c x o)
rfind_step-Splits c x xs (some i) s = (ap (λ t. x ∷ t) s.0, s.1)
rfind_step-Splits c x xs none s = elim (Bool-cases (x == c)) [
  | inl it ↦ rw it (ap (λ y. y ∷ xs) (sym ((==_iff x c).0 it)), s)
  | inr other ↦ rw other (other, s)
]

rfind-Splits : (c : ℕ) (xs : List ℕ) → Splits c xs (rfind c xs)
unfolding rfind
rfind-Splits c [] = tt
rfind-Splits c (x ∷ xs) = rfind_step-Splits c x xs (rfind c xs) (rfind-Splits c xs)

-- The three ways that `Dirname` and `Basename` go together.
pub Parts : List ℕ → List ℕ → List ℕ → Type 0
Parts name dir base =
    (dir ++ slash ∷ base ≡ name)
    ⊎ (dir ≡ slash ∷ []) × (dir ++ base ≡ name)
    ⊎ (dir ≡ dot ∷ []) × (base ≡ name)

-- `Basename` holds no slash. `Dirname`, a slash and `Basename` are the name; or the one slash of the
-- name is its first character, and `Dirname` is that; or there is none, `Dirname` is a dot and
-- `Basename` the name.
pub dirname-basename :
    (name : List ℕ) → Without slash (basename name) × Parts name (dirname name) (basename name)
unfolding dirname basename Parts
dirname-basename [] = (tt, inr (inr (refl, refl)))
dirname-basename (x ∷ xs) = by_place (rfind slash (x ∷ xs)) (rfind-Splits slash (x ∷ xs))
  where
    by_place :
        (o : Option ℕ)
        → Splits slash (x ∷ xs) o
        → Without slash (basename_at (x ∷ xs) o)
          × ((dirname_at (x ∷ xs) o ++ slash ∷ basename_at (x ∷ xs) o ≡ x ∷ xs)
              ⊎ (dirname_at (x ∷ xs) o ≡ slash ∷ [])
                × (dirname_at (x ∷ xs) o ++ basename_at (x ∷ xs) o ≡ x ∷ xs)
              ⊎ (dirname_at (x ∷ xs) o ≡ dot ∷ []) × (basename_at (x ∷ xs) o ≡ x ∷ xs))
    by_place none s = (s, inr (inr (refl, refl)))
    by_place (some zero) s = (s.1, inr (inl (refl, s.0)))
    by_place (some (suc p)) s = (s.1, inl s.0)
