-- ===== src/Timer/Wake.antt =====
-- `getNextTimer` and the notification of `addTimer`: the loop that waits never sleeps too long.
use hpgs.Prelude.{ℕ, ◌-◌, ◌≤◌, ◌≡◌, ◌⊎◌, refl, ◌∙◌, arith, Bool, true, false, inl, inr}
use hpgs.Prelude.{List, [], ◌∷◌, some, ◌==◌, Bool-cases, ==_iff}
use mathlib.Core.Path.{subst}
use hpgs.Timer.{
  Timer, TimerManager, Heap, has_cb, insert, update, get_next_timer, time_left, no_timer,
}
use hpgs.Timer.{add_timer, add_timer_locked, at_begin}
use hpgs.Timer.Order.{Sorted, contains, Before-next}
use hpgs.Timer.Inv.{IsValid}

time_left-le :
    (now : ℕ) (h : Heap) (xs : List ℕ) (q : ℕ)
    → Sorted h xs
    → contains q xs ≡ true
    → time_left now h xs ≤ (h q).next - now
time_left-le now h [] q s c = cc
time_left-le now h (x ∷ xs) q s c = elim (Bool-cases (x == q)) [
  | inl it ↦
      subst (λ y. time_left now h (x ∷ xs) ≤ (h y).next - now) ((==_iff x q).0 it) (ground arith)
  | inr other ↦ ground (arith, Before-next h x q xs s.0)
]

-- `getNextTimer` answers how long it is to the first timer, 0 if that is due: for no timer of the set
-- is it longer than the time left, for some timer it is just that, and with no timer it is `~0ull`.
pub get_next_timer_lem :
    (now : ℕ) (m : TimerManager)
    → IsValid m
    → let left = (get_next_timer now m).0 in
      ((q : ℕ) → contains q m.timers ≡ true → left ≤ (m.heap q).next - now)
      × ((m.timers ≡ []) × (left ≡ no_timer)
          ⊎ (q : ℕ) × (contains q m.timers ≡ true) × (left ≡ (m.heap q).next - now))
unfolding get_next_timer
get_next_timer_lem now m v =
    (λ q c. time_left-le now m.heap m.timers q v.sorted c, attained m.timers)
  where
    attained :
        (xs : List ℕ)
        → (xs ≡ []) × (time_left now m.heap xs ≡ no_timer)
          ⊎ (q : ℕ) × (contains q xs ≡ true) × (time_left now m.heap xs ≡ (m.heap q).next - now)
    attained [] = inl (refl, refl)
    attained (q ∷ xs) = inr (q, ground arith, ground arith)

-- Inserting anywhere but in front leaves the first timer first.
time_left-insert :
    (now : ℕ) (h : Heap) (p : ℕ) (t : Timer) (xs : List ℕ)
    → contains p xs ≡ false
    → at_begin p (insert (update h p t) p xs) ≡ false
    → time_left now (update h p t) (insert (update h p t) p xs) ≡ time_left now h xs
unfolding insert
time_left-insert now h p t [] c e = ground arith
time_left-insert now h p t (q ∷ xs) c e = ground arith

-- Where `addTimer` does not notify the loop, and no notification stands, the time to the first timer
-- is what it was before: a loop that waits that long misses nothing.
pub add_timer_wakes :
    (now now' p ms c : ℕ) (recurring : Bool) (m : TimerManager)
    → IsValid m
    → has_cb (m.heap p) ≡ false
    → m.tickled ≡ false
    → let (notified, m') = add_timer now p ms (some c) recurring m in
      notified ≡ false → (get_next_timer now' m').0 ≡ (get_next_timer now' m).0
unfolding add_timer add_timer_locked get_next_timer
add_timer_wakes now now' p ms c recurring m v free quiet e =
    time_left-insert now' m.heap p _ m.timers (v.live p ∙ free) (ground arith)
