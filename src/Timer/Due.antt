-- ===== src/Timer/Due.antt =====
-- Which timers `listExpiredCb` takes out of the set.
use hpgs.Prelude.{ℕ, ◌+◌, ◌≤◌, ◌≡◌, refl, arith, true, false, not, ◌&&◌}
use hpgs.Prelude.{
  List, [], ◌∷◌, All, ◌++◌, ltb, leb, ◌==◌, if◌then◌else◌, Bool-cases, inl, inr, ==_iff,
}
use mathlib.Core.Path.{subst}
use hpgs.Timer.{Heap, less, update, lower_bound, skip_due}
use hpgs.Timer.Order.{Before, Sorted, contains}

-- The timers that are due at `now`, and those that are not.
unfoldable pub due : ℕ → Heap → List ℕ → List ℕ
due now h [] = []
due now h (p ∷ xs) = if leb (h p).next now then p ∷ due now h xs else due now h xs

pub later : ℕ → Heap → List ℕ → List ℕ
later now h [] = []
later now h (p ∷ xs) = if leb (h p).next now then later now h xs else p ∷ later now h xs

abbrev NotBefore : ℕ → Heap → List ℕ → Type 0
NotBefore lo h xs = All (λ q. lo ≤ (h q).next) xs

Before-NotBefore :
    (lo : ℕ) (h : Heap) (p : ℕ) (xs : List ℕ) → lo ≤ (h p).next → Before h p xs → NotBefore lo h xs
Before-NotBefore lo h p [] l b = tt
Before-NotBefore lo h p (x ∷ xs) l b = (ground (arith, b.0), Before-NotBefore lo h p xs l b.1)

all_later :
    (now : ℕ) (h : Heap) (xs : List ℕ)
    → NotBefore (1 + now) h xs
    → (due now h xs ≡ []) × (later now h xs ≡ xs)
unfolding due later
all_later now h [] a = (refl, refl)
all_later now h (x ∷ xs) a =
    let rest = all_later now h xs a.1 in ground (arith, a.0, rest.0, rest.1)

skip_due-due :
    (now : ℕ) (h : Heap) (xs : List ℕ)
    → NotBefore now h xs
    → Sorted h xs
    → ((skip_due h now xs).0 ≡ due now h xs) × ((skip_due h now xs).1 ≡ later now h xs)
unfolding skip_due due later
skip_due-due now h [] a s = (refl, refl)
skip_due-due now h (x ∷ xs) a s = elim (Bool-cases ((h x).next == now)) [
  | inl it ↦ let rest = skip_due-due now h xs a.1 s.1 in ground (arith, rest.0, rest.1)
  | inr other ↦
      let rest = all_later now h xs (Before-NotBefore (1 + now) h x xs (ground (arith, a.0)) s.0) in
      ground (arith, a.0, rest.0, rest.1)
]

-- The search for a timer that is due now and the loop behind it split the set into the timers that
-- are due and the others.
pub split_lem :
    (now fresh : ℕ) (h : Heap) (xs : List ℕ)
    → Sorted h xs
    → contains fresh xs ≡ false
    → let parts = lower_bound (update h fresh (record (h fresh) { next = now })) fresh xs in
      let rest = skip_due h now parts.1 in
      (parts.0 ++ rest.0 ≡ due now h xs) × (rest.1 ≡ later now h xs)
unfolding lower_bound due later skip_due
split_lem now fresh h [] s c = (refl, refl)
split_lem now fresh h (x ∷ xs) s c =
    let mark : Heap = update h fresh (record (h fresh) { next = now }) in
    elim (Bool-cases (less mark x fresh)) [
      | inl before ↦
          rw before (
            let rest = split_lem now fresh h xs s.1 (ground arith) in
            ground (arith, rest.0, rest.1))
      | inr from ↦ rw from (
          let l : now ≤ (h x).next = ground arith in
          skip_due-due now h (x ∷ xs) (l, Before-NotBefore now h x xs l s.0) s)
    ]

pub contains-due :
    (now : ℕ) (h : Heap) (q : ℕ) (xs : List ℕ)
    → contains q (due now h xs) ≡ (contains q xs && leb (h q).next now)
unfolding due
contains-due now h q [] = refl
contains-due now h q (x ∷ xs) = elim (Bool-cases (x == q)) [
  | inl it ↦
      subst (λ y. contains y (due now h (x ∷ xs)) ≡ (contains y (x ∷ xs) && leb (h y).next now))
        ((==_iff x q).0 it) (ground (arith, contains-due now h x xs))
  | inr other ↦ ground (arith, contains-due now h q xs)
]

pub contains-later :
    (now : ℕ) (h : Heap) (q : ℕ) (xs : List ℕ)
    → contains q (later now h xs) ≡ (contains q xs && not (leb (h q).next now))
unfolding later
contains-later now h q [] = refl
contains-later now h q (x ∷ xs) = elim (Bool-cases (x == q)) [
  | inl it ↦
      subst
        (λ y. contains y (later now h (x ∷ xs)) ≡ (contains y (x ∷ xs) && not (leb (h y).next now)))
        ((==_iff x q).0 it) (ground (arith, contains-later now h x xs))
  | inr other ↦ ground (arith, contains-later now h q xs)
]

Before-due : (now : ℕ) (h : Heap) (p : ℕ) (xs : List ℕ) → Before h p xs → Before h p (due now h xs)
unfolding due
Before-due now h p [] b = tt
Before-due now h p (x ∷ xs) b = ground (arith, b.0, Before-due now h p xs b.1)

Before-later :
    (now : ℕ) (h : Heap) (p : ℕ) (xs : List ℕ) → Before h p xs → Before h p (later now h xs)
unfolding later
Before-later now h p [] b = tt
Before-later now h p (x ∷ xs) b = ground (arith, b.0, Before-later now h p xs b.1)

pub due-Sorted : (now : ℕ) (h : Heap) (xs : List ℕ) → Sorted h xs → Sorted h (due now h xs)
unfolding due
due-Sorted now h [] s = tt
due-Sorted now h (x ∷ xs) s = ground (arith, Before-due now h x xs s.0, due-Sorted now h xs s.1)

pub later-Sorted : (now : ℕ) (h : Heap) (xs : List ℕ) → Sorted h xs → Sorted h (later now h xs)
unfolding later
later-Sorted now h [] s = tt
later-Sorted now h (x ∷ xs) s =
    ground (arith, Before-later now h x xs s.0, later-Sorted now h xs s.1)

-- Where the first timer is not due, none is.
pub none_due :
    (now p : ℕ) (h : Heap) (xs : List ℕ)
    → Sorted h (p ∷ xs)
    → ltb now (h p).next ≡ true
    → due now h (p ∷ xs) ≡ []
none_due now p h xs s l =
    let lo : 1 + now ≤ (h p).next = ground arith in
    (all_later now h (p ∷ xs) (lo, Before-NotBefore (1 + now) h p xs lo s.0)).0
