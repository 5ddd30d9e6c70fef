-- ===== src/FdManager/Room.antt =====
-- `m_datas.resize` in `get`.
use hpgs.Prelude.{
  ℕ, zero, suc, ◌-◌, ◌*◌, ◌/◌, ◌<◌, ◌≤◌, ◌≡◌, inl, inr, refl, ap, sym, ◌∙◌, arith, Bool, true,
  false, Bool-cases,
}
use hpgs.Prelude.{
  List, [], ◌∷◌, ◌++◌, Option, none, some, length, get_elem?, replicate, ltb, if◌then◌else◌,
  take_all, length-append, length-replicate,
}
use hpgs.Prelude.{get_elem?-append}
use hpgs.FdManager.{resize}

get_elem?-append_left :
    (xs ys : List (Option ℕ)) (i : ℕ) (x : Option ℕ)
    → get_elem? xs i ≡ some x
    → get_elem? (xs ++ ys) i ≡ some x
get_elem?-append_left [] ys i x e = absurd (cc)
get_elem?-append_left (a ∷ xs) ys zero x e = e
get_elem?-append_left (a ∷ xs) ys (suc i) x e = get_elem?-append_left xs ys i x e

replicate-none : (n k p : ℕ) → get_elem? (replicate n none) k ≡ some (some p) → ⊥
replicate-none zero k p e = cc
replicate-none (suc n) zero p e = cc
replicate-none (suc n) (suc k) p e = replicate-none n k p e

module _ (n : ℕ) (ds : List (Option ℕ)) (grows : length ds ≤ n) where
  resized : resize n ds ≡ ds ++ replicate (n - length ds) none
  unfolding resize
  resized = ap (λ xs. xs ++ replicate (n - length ds) none) (take_all n ds grows)

  length-resize : length (resize n ds) ≡ n
  length-resize =
      let more : List (Option ℕ) = replicate (n - length ds) none in
      let filled : length more ≡ n - length ds = length-replicate (n - length ds) none in
      ap length resized ∙ length-append ds more ∙ omega (arith, filled)

  resize_kept :
      (i : ℕ) (x : Option ℕ) → get_elem? ds i ≡ some x → get_elem? (resize n ds) i ≡ some x
  resize_kept i x e =
      ap (λ xs. get_elem? xs i) resized
      ∙ get_elem?-append_left ds (replicate (n - length ds) none) i x e

  resize_old :
      (i p : ℕ) → get_elem? (resize n ds) i ≡ some (some p) → get_elem? ds i ≡ some (some p)
  resize_old i p e =
      elim (get_elem?-append ds (replicate (n - length ds) none) i (some p)
        (ap (λ xs. get_elem? xs i) (sym resized) ∙ e)) [
          | inl old ↦ old
          | inr (k, at, new) ↦ absurd (replicate-none (n - length ds) k p new)
        ]

abbrev pub widened : ℕ → List (Option ℕ) → List (Option ℕ)
widened fd ds = if ltb fd (length ds) then ds else resize (fd * 3 / 2) ds

-- The table in which `get` stores: wide enough, with the objects that it had.
module _ (fd : ℕ) (ds : List (Option ℕ)) (grown : 2 ≤ length ds) where
  pub grows : ltb fd (length ds) ≡ false → length ds ≤ fd * 3 / 2
  grows e = let l : length ds ≤ fd = ground arith in omega (arith, l)

  pub widened-lt : fd < length (widened fd ds)
  widened-lt = elim (Bool-cases (ltb fd (length ds))) [
    | inl there ↦ rw there (ground arith)
    | inr past ↦
        let l : length ds ≤ fd = ground arith in
        rw (past, length-resize (fd * 3 / 2) ds (grows past)) (omega (arith, l, grown))
  ]

  pub widened-le : length ds ≤ length (widened fd ds)
  widened-le = elim (Bool-cases (ltb fd (length ds))) [
    | inl there ↦ rw there (omega arith)
    | inr past ↦ rw (past, length-resize (fd * 3 / 2) ds (grows past)) (grows past)
  ]

  pub widened_kept :
      (i : ℕ) (x : Option ℕ) → get_elem? ds i ≡ some x → get_elem? (widened fd ds) i ≡ some x
  widened_kept i x e = elim (Bool-cases (ltb fd (length ds))) [
    | inl there ↦ rw there e
    | inr past ↦ rw past (resize_kept (fd * 3 / 2) ds (grows past) i x e)
  ]

  pub widened_old :
      (i p : ℕ) → get_elem? (widened fd ds) i ≡ some (some p) → get_elem? ds i ≡ some (some p)
  widened_old i p e = by_case (ltb fd (length ds)) refl e
    where
      by_case :
          (b : Bool)
          → ltb fd (length ds) ≡ b
          → get_elem? (if b then ds else resize (fd * 3 / 2) ds) i ≡ some (some p)
          → get_elem? ds i ≡ some (some p)
      by_case true there e' = e'
      by_case false past e' = resize_old (fd * 3 / 2) ds (grows past) i p e'
