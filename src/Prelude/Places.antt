-- ===== src/Prelude/Places.antt =====
-- Reading, writing and growing a list at a place.
use Prim.Native.Nat.{ℕ, zero, suc, ◌+◌, ◌<◌, ◌≤◌}
use mathlib.Core.Path.{◌≡◌, refl, ap}
use mathlib.Core.Logic.{◌⊎◌, inl, inr}
use mathlib.Core.Bool.{false}
use mathlib.Core.List.{List, [], ◌∷◌, ◌++◌}
use mathlib.Core.Option.{none, some}
use native.Mathlib.Omega.{arith}
use hpgs.Prelude.Tests.{◌==◌}
use hpgs.Prelude.Lists.{length, get_elem?, set}

module _ {ℓ} {A : Type ℓ} where
  pub some-injective : {x y : A} → some x ≡ some y → x ≡ y
  some-injective e = cc

  pub get_elem?-set :
      (xs : List A) (i : ℕ) (x y : A) → get_elem? xs i ≡ some y → get_elem? (set xs i x) i ≡ some x
  get_elem?-set [] i x y e = absurd (cc)
  get_elem?-set (a ∷ xs) zero x y e = refl
  get_elem?-set (a ∷ xs) (suc i) x y e = get_elem?-set xs i x y e

  pub set-set : (xs : List A) (i : ℕ) (x y : A) → set (set xs i x) i y ≡ set xs i y
  set-set [] i x y = refl
  set-set (a ∷ xs) zero x y = refl
  set-set (a ∷ xs) (suc i) x y = ap (λ t. a ∷ t) (set-set xs i x y)

  pub get_elem?-set_other :
      (xs : List A) (i j : ℕ) (x : A) → (i == j) ≡ false → get_elem? (set xs i x) j ≡ get_elem? xs j
  get_elem?-set_other [] i j x n = refl
  get_elem?-set_other (a ∷ xs) zero zero x n = absurd (ground arith)
  get_elem?-set_other (a ∷ xs) zero (suc j) x n = refl
  get_elem?-set_other (a ∷ xs) (suc i) zero x n = refl
  get_elem?-set_other (a ∷ xs) (suc i) (suc j) x n = get_elem?-set_other xs i j x (ground arith)

  pub get_elem?-lt : (xs : List A) (i : ℕ) → i < length xs → (x : A) × (get_elem? xs i ≡ some x)
  get_elem?-lt [] i l = absurd (omega arith)
  get_elem?-lt (a ∷ xs) zero l = (a, refl)
  get_elem?-lt (a ∷ xs) (suc i) l = get_elem?-lt xs i (omega arith)

  pub get_elem?-past : (xs : List A) (i : ℕ) → length xs ≤ i → get_elem? xs i ≡ none
  get_elem?-past [] i l = refl
  get_elem?-past (a ∷ xs) zero l = absurd (omega arith)
  get_elem?-past (a ∷ xs) (suc i) l = get_elem?-past xs i (omega arith)

  pub get_elem?-append :
      (xs ys : List A) (j : ℕ) (x : A)
      → get_elem? (xs ++ ys) j ≡ some x
      → (get_elem? xs j ≡ some x) ⊎ ((k : ℕ) × (j ≡ length xs + k) × (get_elem? ys k ≡ some x))
  get_elem?-append [] ys j x e = inr (j, omega arith, e)
  get_elem?-append (a ∷ xs) ys zero x e = inl e
  get_elem?-append (a ∷ xs) ys (suc j) x e = elim (get_elem?-append xs ys j x e) [
    | inl old ↦ inl old
    | inr (k, at, new) ↦ inr (k, omega arith, new)
  ]
