-- ===== src/Timer/Order.antt =====
-- The ordered set of the timer manager: what its operations do to a sorted list.
use hpgs.Prelude.{ℕ, ◌≤◌, ◌≡◌, refl, ap, arith, Bool, true, false, not, ◌&&◌, ◌||◌, some}
use hpgs.Prelude.{List, [], ◌∷◌, All, ◌==◌, Bool-cases, inl, inr, ==_iff}
use mathlib.Core.Path.{subst}
use hpgs.Timer.{Timer, Heap, less, update, insert, find, erase}

abbrev pub Before : Heap → ℕ → List ℕ → Type 0
Before h p xs = All (λ q. less h p q ≡ true) xs

abbrev pub Sorted : Heap → List ℕ → Type 0
Sorted h [] = Unit {0}
Sorted h (p ∷ xs) = Before h p xs × Sorted h xs

abbrev pub contains : ℕ → List ℕ → Bool
contains p [] = false
contains p (q ∷ xs) = q == p || contains p xs

-- What holds of `p` and of all that are not `p`.
pub each : {P : ℕ → Type 0} → (p : ℕ) → P p → ((q : ℕ) → (p == q) ≡ false → P q) → (q : ℕ) → P q
each {P} p it others q = elim (Bool-cases (p == q)) [
  | inl e ↦ subst P ((==_iff p q).0 e) it
  | inr ne ↦ others q ne
]

pub less_trans : (h : Heap) (p q r : ℕ) → less h p q ≡ true → less h q r ≡ true → less h p r ≡ true
less_trans h p q r a b = ground arith

pub less_asymm : (h : Heap) (p q : ℕ) → less h p q ≡ true → less h q p ≡ false
less_asymm h p q a = ground arith

pub less_irrefl : (h : Heap) (p : ℕ) → less h p p ≡ false
less_irrefl h p = ground arith

pub less_total : (h : Heap) (p q : ℕ) → less h p q ≡ false → less h q p ≡ false → p ≡ q
less_total h p q a b = ground arith

Before-trans :
    (h : Heap) (p q : ℕ) (xs : List ℕ) → less h p q ≡ true → Before h q xs → Before h p xs
Before-trans h p q [] l b = tt
Before-trans h p q (x ∷ xs) l b = (less_trans h p q x l b.0, Before-trans h p q xs l b.1)

Before-insert :
    (h : Heap) (r p : ℕ) (xs : List ℕ)
    → less h r p ≡ true
    → Before h r xs
    → Before h r (insert h p xs)
unfolding insert
Before-insert h r p [] l b = (l, tt)
Before-insert h r p (q ∷ xs) l b = ground (arith, Before-insert h r p xs l b.1)

-- Insertion keeps the order.
pub insert-Sorted : (h : Heap) (p : ℕ) (xs : List ℕ) → Sorted h xs → Sorted h (insert h p xs)
unfolding insert
insert-Sorted h p [] s = (tt, tt)
insert-Sorted h p (q ∷ xs) s = elim (Bool-cases (less h q p)) [
  | inl after ↦ rw after (Before-insert h q p xs after s.0, insert-Sorted h p xs s.1)
  | inr not_after ↦ rw not_after (elim (Bool-cases (less h p q)) [
    | inl first ↦ rw first ((first, Before-trans h p q xs first s.0), s)
    | inr same ↦ rw same s
  ])
]

-- Insertion adds its element and no other.
pub contains-insert :
    (h : Heap) (r p : ℕ) (xs : List ℕ) → contains r (insert h p xs) ≡ (p == r || contains r xs)
unfolding insert
contains-insert h r p [] = refl
contains-insert h r p (q ∷ xs) = elim (Bool-cases (less h q p)) [
  | inl after ↦ rw after (ground (arith, contains-insert h r p xs))
  | inr not_after ↦ rw not_after (elim (Bool-cases (less h p q)) [
    | inl first ↦ rw first
    | inr same ↦ rw same (swallow (less_total h p q same not_after))
  ])
]
  where
    swallow : p ≡ q → (q == r || contains r xs) ≡ (p == r || (q == r || contains r xs))
    swallow e = ground arith

Before-erase : (h : Heap) (r p : ℕ) (xs : List ℕ) → Before h r xs → Before h r (erase p xs)
unfolding erase
Before-erase h r p [] b = tt
Before-erase h r p (q ∷ xs) b = ground (arith, Before-erase h r p xs b.1)

pub erase-Sorted : (h : Heap) (p : ℕ) (xs : List ℕ) → Sorted h xs → Sorted h (erase p xs)
unfolding erase
erase-Sorted h p [] s = tt
erase-Sorted h p (q ∷ xs) s = ground (arith, Before-erase h q p xs s.0, erase-Sorted h p xs s.1)

-- What comes behind an element of a sorted list is not that element.
pub Before-contains : (h : Heap) (p : ℕ) (xs : List ℕ) → Before h p xs → contains p xs ≡ false
Before-contains h p [] b = refl
Before-contains h p (q ∷ xs) b = ground (arith, less_irrefl h p, Before-contains h p xs b.1)

pub contains-erase :
    (h : Heap) (r p : ℕ) (xs : List ℕ)
    → Sorted h xs
    → contains r (erase p xs) ≡ (not (p == r) && contains r xs)
unfolding erase
contains-erase h r p [] s = ground arith
contains-erase h r p (q ∷ xs) s = elim (Bool-cases (q == p)) [
  | inl here ↦ rw here (gone ((==_iff q p).0 here))
  | inr further ↦ rw further (ground (arith, contains-erase h r p xs s.1))
]
  where
    gone : q ≡ p → contains r xs ≡ (not (p == r) && (q == r || contains r xs))
    gone e = elim (Bool-cases (q == r)) [
      | inl it ↦
          let at : q ≡ r = (==_iff q r).0 it in
          subst (λ x. contains x xs ≡ (not (p == r) && (q == r || contains r xs))) at
            (ground (arith, Before-contains h q xs s.0))
      | inr other ↦ ground arith
    ]

pub find-some :
    (h : Heap) (p : ℕ) (xs : List ℕ) → Sorted h xs → contains p xs ≡ true → find h p xs ≡ some p
unfolding find
find-some h p [] s c = cc
find-some h p (q ∷ xs) s c = elim (Bool-cases (less h q p)) [
  | inl after ↦ rw after (find-some h p xs s.1 (behind after))
  | inr not_after ↦ rw not_after (elim (Bool-cases (less h p q)) [
    | inl first ↦ absurd (not_first first)
    | inr same ↦ rw same (ap some (less_total h q p not_after same))
  ])
]
  where
    behind : less h q p ≡ true → contains p xs ≡ true
    behind l = ground (arith, less_irrefl h p)

    not_first : less h p q ≡ true → ⊥
    not_first l =
        ground (arith, less_irrefl h p, Before-contains h p xs (Before-trans h p q xs l s.0))

Before-same_next :
    (h h' : Heap) (p : ℕ) (xs : List ℕ)
    → ((q : ℕ) → (h' q).next ≡ (h q).next)
    → Before h p xs
    → Before h' p xs
Before-same_next h h' p [] e b = tt
Before-same_next h h' p (q ∷ xs) e b =
    (ground (arith, e p, e q, b.0), Before-same_next h h' p xs e b.1)

-- The order looks at nothing but the times.
pub Sorted-same_next :
    (h h' : Heap) (xs : List ℕ) → ((q : ℕ) → (h' q).next ≡ (h q).next) → Sorted h xs → Sorted h' xs
Sorted-same_next h h' [] e s = tt
Sorted-same_next h h' (p ∷ xs) e s =
    (Before-same_next h h' p xs e s.0, Sorted-same_next h h' xs e s.1)

Before-update :
    (h : Heap) (p : ℕ) (t : Timer) (r : ℕ) (xs : List ℕ)
    → (r == p) ≡ false
    → contains p xs ≡ false
    → Before h r xs
    → Before (update h p t) r xs
Before-update h p t r [] ne c b = tt
Before-update h p t r (q ∷ xs) ne c b =
    (ground (arith, b.0), Before-update h p t r xs ne (ground arith) b.1)

-- A timer outside the set may change.
pub Sorted-update :
    (h : Heap) (p : ℕ) (t : Timer) (xs : List ℕ)
    → contains p xs ≡ false
    → Sorted h xs
    → Sorted (update h p t) xs
Sorted-update h p t [] c s = tt
Sorted-update h p t (q ∷ xs) c s = (
  Before-update h p t q xs (ground arith) (ground arith) s.0,
  Sorted-update h p t xs (ground arith) s.1,
)

-- What stands before all the others is due no later than they are.
pub Before-next :
    (h : Heap) (p q : ℕ) (xs : List ℕ)
    → Before h p xs
    → contains q xs ≡ true
    → (h p).next ≤ (h q).next
Before-next h p q [] b c = cc
Before-next h p q (x ∷ xs) b c = elim (Bool-cases (x == q)) [
  | inl it ↦ subst (λ y. (h p).next ≤ (h y).next) ((==_iff x q).0 it) (ground (arith, b.0))
  | inr other ↦ Before-next h p q xs b.1 (ground arith)
]
