-- ===== src/Timer/Tests.antt =====
-- A manager with two timers: concrete runs, and the theorems at it.
use hpgs.Prelude.{ℕ, ◌≡◌, refl, arith, true, false, not, ◌&&◌, ◌||◌}
use hpgs.Prelude.{[], ◌∷◌, none, some, ◌==◌, if◌then◌else◌, add64}
use hpgs.Timer.{
  Timer, Heap, TimerManager, has_cb, find, erase, insert, fire, expire, skip_due, lower_bound,
}
use hpgs.Timer.{
  add_timer, add_timer_locked, cancel, reset, get_next_timer, list_expired_cb,
  detect_clock_rollover,
}
use hpgs.Timer.Order.{contains}
use hpgs.Timer.Inv.{IsValid, add_timer-IsValid, cancel_lem}
use hpgs.Timer.Reset.{reset_lem}
use hpgs.Timer.Wake.{add_timer_wakes}
use hpgs.Timer.Expire.{callbacks, fired, taken, list_expired_cb_lem}

abbrev idle : Timer
idle = record { recurring = false; ms = 0; next = 0; cb = none }

-- The timer at the address 1 comes again every 5 ms, the one at 2 is due once.
abbrev two_timers : Heap
two_timers p =
    if 1 == p
    then record { recurring = true; ms = 5; next = 105; cb = some 10 }
    else if 2 == p
    then record { recurring = false; ms = 9; next = 109; cb = some 20 }
    else idle

abbrev manager : TimerManager
manager = record {
  heap = two_timers;
  timers = 1 ∷ 2 ∷ [];
  tickled = false;
  previous_time = 4_000_000;
}

manager-IsValid : IsValid manager
manager-IsValid = record { sorted = ((refl, tt), (tt, tt)); live = λ q. ground arith }

-- Late enough both timers fire.
fires_both : (list_expired_cb 3_999_999 7 manager).0 ≡ some 10 ∷ some 20 ∷ []
unfolding list_expired_cb detect_clock_rollover expire fire insert lower_bound skip_due
fires_both = refl

-- At 105 the first timer fires and is due again behind the second.
recurs : (list_expired_cb 105 7 (record manager { previous_time = 100 })).1.timers ≡ 2 ∷ 1 ∷ []
unfolding list_expired_cb detect_clock_rollover expire fire insert lower_bound skip_due
recurs = refl

-- Two hours back every timer fires.
rolls_over : (list_expired_cb 100 7 manager).0 ≡ some 10 ∷ some 20 ∷ []
unfolding list_expired_cb detect_clock_rollover expire fire insert lower_bound skip_due
rolls_over = refl

cancels :
    (cancel 1 manager)
    ≡ some (
      true,
      record manager {
        heap = λ q.
            if q == 1
            then record { recurring = true; ms = 5; next = 105; cb = none }
            else two_timers q;
        timers = 2 ∷ [];
      },
    )
unfolding cancel find erase
cancels = refl

add_timer-IsValid_example :
    let m' = (add_timer 100 3 2 (some 30) false manager).1 in
    IsValid m'
    × ((m'.heap 3).next ≡ add64 100 2)
    × ((q : ℕ) → contains q m'.timers ≡ (3 == q || contains q manager.timers))
add_timer-IsValid_example = add_timer-IsValid 100 3 2 30 false manager manager-IsValid refl

cancel_lem_example :
    (m' : TimerManager) × (cancel 1 manager ≡ some (true, m'))
    × IsValid m'
    × (has_cb (m'.heap 1) ≡ false)
    × ((q : ℕ) → contains q m'.timers ≡ (not (1 == q) && contains q manager.timers))
cancel_lem_example = cancel_lem 1 manager manager-IsValid

reset_lem_example :
    let (done, front, m') = reset 106 2 4 true manager in
    (done ≡ true)
    × IsValid m'
    × ((q : ℕ) → contains q m'.timers ≡ contains q manager.timers)
    × (done ≡ true → (m'.heap 2).ms ≡ 4)
    × (done ≡ true → false ≡ false → (m'.heap 2).next ≡ add64 106 4)
    × (done ≡ false → m' ≡ manager)
reset_lem_example = reset_lem 106 2 4 true manager manager-IsValid

add_timer_wakes_example :
    let (notified, m') = add_timer 100 3 50 (some 30) false manager in
    (get_next_timer 101 m').0 ≡ (get_next_timer 101 manager).0
unfolding add_timer add_timer_locked insert
add_timer_wakes_example =
    add_timer_wakes 100 101 3 50 30 false manager manager-IsValid refl refl not_front
  where
    not_front : (add_timer 100 3 50 (some 30) false manager).0 ≡ false
    not_front = refl

list_expired_cb_lem_example :
    let (cbs, m') = list_expired_cb 105 7 manager in
    let gone = taken 105 manager in
    (cbs ≡ callbacks manager.heap gone)
    × IsValid m'
    × ((q : ℕ)
        → m'.heap q ≡ (if contains q gone then fired 105 (manager.heap q) else manager.heap q))
    × ((q : ℕ)
        → contains q m'.timers
          ≡ (contains q manager.timers && (not (contains q gone) || (manager.heap q).recurring)))
list_expired_cb_lem_example = list_expired_cb_lem 105 7 manager manager-IsValid refl
