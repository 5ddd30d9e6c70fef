-- ===== src/Env/Table.antt =====
-- `add`, `del`, `get` and `has` of the table of arguments, and the helps.
use hpgs.Prelude.Text.{same_text, same_text_refl, same_text→≡}
use hpgs.Prelude.{
  ℕ, ◌≡◌, ◌≢◌, refl, ap, sym, ◌∙◌, arith, Bool, true, false, not, ◌&&◌, ◌||◌, List, [], ◌∷◌, Option,
  none, some, if◌then◌else◌, Bool-cases, inl, inr,
}
use hpgs.Env.{Env, assign, find, without, is_some, or_default, add, has, del, get}

module _ {A : Type 0} where
  shadowed : (b : Bool) (x y z : A) → (if b then x else z) ≡ (if b then x else if b then y else z)
  shadowed true x y z = refl
  shadowed false x y z = refl

  swapped :
      (a b : Bool) (x y z : A)
      → (a && b) ≡ false
      → (if a then x else if b then y else z) ≡ (if b then y else if a then x else z)
  swapped true true x y z h = absurd (ground arith)
  swapped true false x y z h = refl
  swapped false b x y z h = refl

-- A text is not two others at once.
apart : (j k key : List ℕ) → same_text j k ≡ false → (same_text j key && same_text k key) ≡ false
apart j k key n = elim (Bool-cases (same_text j key)) [
  | inr a ↦ rw a refl
  | inl a ↦ elim (Bool-cases (same_text k key)) [
    | inr b ↦ rw (a, b) refl
    | inl b ↦
        let same = same_text→≡ j key a ∙ sym (same_text→≡ k key b) in
        absurd (clash (sym n ∙ ap (λ t. same_text t k) same ∙ same_text_refl k))
  ]
]
  where
    clash : false ≢ true
    clash e = cc

pub find-assign :
    (key k v : List ℕ) (xs : List (List ℕ × List ℕ))
    → find key (assign k v xs) ≡ (if same_text k key then some v else find key xs)
find-assign key k v [] = refl
find-assign key k v ((j, w) ∷ xs) = elim (Bool-cases (same_text j k)) [
  | inl e ↦
      rw (e, ap (λ t. same_text t key) (same_text→≡ j k e))
        (shadowed (same_text k key) (some v) (some w) (find key xs))
  | inr n ↦
      rw (n, find-assign key k v xs)
        (swapped (same_text j key) (same_text k key) (some w) (some v) (find key xs)
          (apart j k key n))
]

find-without :
    (key k : List ℕ) (xs : List (List ℕ × List ℕ))
    → find key (without k xs) ≡ (if same_text k key then none else find key xs)
find-without key k [] = elim (Bool-cases (same_text k key)) [
  | inl h ↦ rw h refl
  | inr h ↦ rw h refl
]
find-without key k ((j, w) ∷ xs) = elim (Bool-cases (same_text j k)) [
  | inl e ↦
      rw (e, find-without key k xs, ap (λ t. same_text t key) (same_text→≡ j k e))
        (shadowed (same_text k key) none (some w) (find key xs))
  | inr n ↦
      rw (n, find-without key k xs)
        (swapped (same_text j key) (same_text k key) (some w) none (find key xs) (apart j k key n))
]

-- `get` answers what `add` put under the same name, the default where `del` took it away, and under other
-- names what it did before.
pub get_lem :
    (key k val default_value : List ℕ) (e : Env)
    → (get key default_value (add k val e)
        ≡ (if same_text k key then val else get key default_value e))
      × (get key default_value (del k e)
          ≡ (if same_text k key then default_value else get key default_value e))
      × (has key (add k val e) ≡ (same_text k key || has key e))
      × (has key (del k e) ≡ (not (same_text k key) && has key e))
unfolding get add del has
get_lem key k val default_value e =
    rw (find-assign key k val e.args, find-without key k e.args)
      (by_flag (same_text k key) (find key e.args))
  where
    by_flag :
        (b : Bool) (o : Option (List ℕ))
        → (or_default default_value (if b then some val else o)
            ≡ (if b then val else or_default default_value o))
          × (or_default default_value (if b then none else o)
              ≡ (if b then default_value else or_default default_value o))
          × (is_some (if b then some val else o) ≡ (b || is_some o))
          × (is_some (if b then none else o) ≡ (not b && is_some o))
    by_flag true o = (refl, refl, refl, refl)
    by_flag false o = (refl, refl, refl, refl)
