-- ===== src/Trim/Ends.antt =====
-- What trimming takes away.
use hpgs.Prelude.{
  ℕ, suc, ◌-◌, ◌≡◌, refl, ap, sym, ◌∙◌, arith, Bool, true, false, List, [], ◌∷◌, Option, none, some,
  inl, inr, if◌then◌else◌, take, drop, All, Bool-cases,
}
use hpgs.Trim.{
  is_in, later, find_first_not_of, or_here, find_last_not_of, between, trim_from, trim, left_from,
  trim_left, right_from, trim_right,
}

module _ (delimit : List ℕ) where
  -- All the bytes are delimiters.
  abbrev pub Blank : List ℕ → Type 0
  Blank str = All (λ c. is_in delimit c ≡ true) str

  -- The text without the delimiters it begins with, and without those it ends with.
  abbrev pub front_dropped : List ℕ → List ℕ
  front_dropped [] = []
  front_dropped (c ∷ str) =
      let rest = front_dropped str in if is_in delimit c then rest else c ∷ str

  later-left :
      (o : Option ℕ) (c : ℕ) (str : List ℕ) → left_from (later o) (c ∷ str) ≡ left_from o str
  later-left none c str = refl
  later-left (some i) c str = refl

  pub trim_left_lem : (str : List ℕ) → trim_left delimit str ≡ front_dropped str
  unfolding trim_left find_first_not_of
  trim_left_lem [] = refl
  trim_left_lem (c ∷ str) = elim (Bool-cases (is_in delimit c)) [
    | inl blank ↦ rw blank (later-left (find_first_not_of delimit str) c str ∙ trim_left_lem str)
    | inr other ↦ rw other refl
  ]

  later-right :
      (o : Option ℕ) (c : ℕ) (str : List ℕ)
      → is_in delimit c ≡ true
      → Blank (right_from o str)
      → Blank (right_from (later o) (c ∷ str))
  later-right none c str b h = h
  later-right (some i) c str b h = (b, h)

  -- `TrimRight` keeps the delimiters at the front, and nothing else.
  pub trim_right_lem : (str : List ℕ) → Blank (trim_right delimit str)
  unfolding trim_right find_first_not_of
  trim_right_lem [] = tt
  trim_right_lem (c ∷ str) = elim (Bool-cases (is_in delimit c)) [
    | inl blank ↦
        rw blank (later-right (find_first_not_of delimit str) c str blank (trim_right_lem str))
    | inr other ↦ rw other tt
  ]

  abbrev pub kept : Bool → ℕ → List ℕ → List ℕ
  kept b c [] = if b then [] else c ∷ []
  kept b c (d ∷ str) = c ∷ d ∷ str

  abbrev pub back_dropped : List ℕ → List ℕ
  back_dropped [] = []
  back_dropped (c ∷ str) = kept (is_in delimit c) c (back_dropped str)

  abbrev up_to : Option ℕ → List ℕ → List ℕ
  up_to none str = []
  up_to (some end) str = take (suc end) str

  up_to-kept :
      (b : Bool) (c : ℕ) (str : List ℕ)
      → kept b c (up_to (find_last_not_of delimit str) str)
        ≡ up_to (or_here b (find_last_not_of delimit str)) (c ∷ str)
  unfolding find_last_not_of
  up_to-kept true c [] = refl
  up_to-kept false c [] = refl
  up_to-kept b c (d ∷ str) = by_end b (or_here (is_in delimit d) (find_last_not_of delimit str))
    where
      by_end :
          (b : Bool) (o : Option ℕ)
          → kept b c (up_to o (d ∷ str)) ≡ up_to (or_here b o) (c ∷ d ∷ str)
      by_end true none = refl
      by_end false none = refl
      by_end b (some end) = refl

  back_dropped-up_to : (str : List ℕ) → back_dropped str ≡ up_to (find_last_not_of delimit str) str
  unfolding find_last_not_of
  back_dropped-up_to [] = refl
  back_dropped-up_to (c ∷ str) =
      ap (kept (is_in delimit c) c) (back_dropped-up_to str) ∙ up_to-kept (is_in delimit c) c str

  abbrev trim_at : Option ℕ → Option ℕ → List ℕ → List ℕ
  trim_at none end str = []
  trim_at (some begin) end str = between begin end str

  trim_at-later :
      (begin end : Option ℕ) (c : ℕ) (str : List ℕ)
      → trim_at (later begin) (or_here true end) (c ∷ str) ≡ trim_at begin end str
  trim_at-later none end c str = refl
  trim_at-later (some begin) none c str = refl
  trim_at-later (some begin) (some end) c str = ap (λ n. take n (drop begin str)) (omega arith)

  trim_at-here :
      (end : Option ℕ) (c : ℕ) (str : List ℕ)
      → between 0 (or_here false end) (c ∷ str) ≡ c ∷ up_to end str
  trim_at-here none c str = refl
  trim_at-here (some end) c str =
      let whole : suc (suc end) - 0 ≡ suc (suc end) = omega arith in
      ap (λ n. take n (c ∷ str)) whole

  kept_other : (c : ℕ) (str : List ℕ) → c ∷ str ≡ kept false c str
  kept_other c [] = refl
  kept_other c (d ∷ str) = refl

  front_kept :
      (c : ℕ) (str : List ℕ)
      → is_in delimit c ≡ false
      → c ∷ back_dropped str ≡ back_dropped (c ∷ str)
  front_kept c str other = rw other (kept_other c (back_dropped str))

  by_ends :
      (str : List ℕ)
      → trim_at (find_first_not_of delimit str) (find_last_not_of delimit str) str
        ≡ back_dropped (front_dropped str)
  unfolding find_first_not_of find_last_not_of
  by_ends [] = refl
  by_ends (c ∷ str) = elim (Bool-cases (is_in delimit c)) [
    | inl blank ↦ rw blank (
        trim_at-later (find_first_not_of delimit str) (find_last_not_of delimit str) c str
        ∙ by_ends str)
    | inr other ↦ rw (other) (
        trim_at-here (find_last_not_of delimit str) c str
        ∙ sym (ap (λ t. c ∷ t) (back_dropped-up_to str))
        ∙ front_kept c str other)
  ]

  -- `Trim` is the same as dropping the delimiters at the front and then those at the back, one by one.
  pub trim_lem : (str : List ℕ) → trim delimit str ≡ back_dropped (front_dropped str)
  unfolding trim
  trim_lem str = as_trim (find_first_not_of delimit str) ∙ by_ends str
    where
      as_trim :
          (o : Option ℕ) → trim_from delimit o str ≡ trim_at o (find_last_not_of delimit str) str
      as_trim none = refl
      as_trim (some begin) = refl
