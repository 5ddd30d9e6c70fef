-- ===== src/Timer/Reset.antt =====
-- `Timer::reset` on each of its branches.
use hpgs.Prelude.{ℕ, ◌≡◌, refl, ◌∙◌, arith, Bool, true, false, not, ◌&&◌, ◌||◌, inl, inr}
use hpgs.Prelude.{◌==◌, if◌then◌else◌, Bool-cases, add64, sub64}
use hpgs.Timer.{Timer, TimerManager, has_cb, reset, add_timer_locked}
use hpgs.Timer.Order.{contains, find-some}
use hpgs.Timer.Inv.{IsValid, moved, contains-moved}

-- `reset` returns true where the period is already `ms` and is not to start now, for a dead timer too;
-- else it returns whether the timer is live. It keeps the invariant and the set of live timers. Where
-- it returns true the period is `ms`; where it moved a live timer, that is due `ms` after now, or
-- after the start of the period it was in; where it returns false nothing changed.
pub reset_lem :
    (now p ms : ℕ) (from_now : Bool) (m : TimerManager)
    → IsValid m
    → let same = ms == (m.heap p).ms && not from_now in
      let (done, front, m') = reset now p ms from_now m in
      (done ≡ (same || has_cb (m.heap p)))
      × IsValid m'
      × ((q : ℕ) → contains q m'.timers ≡ contains q m.timers)
      × (done ≡ true → (m'.heap p).ms ≡ ms)
      × (done ≡ true
          → same ≡ false
          → (m'.heap p).next
            ≡ add64 (if from_now then now else sub64 (m.heap p).next (m.heap p).ms) ms)
      × (done ≡ false → m' ≡ m)
unfolding reset add_timer_locked
reset_lem now p ms from_now m v = elim (Bool-cases (ms == (m.heap p).ms && not from_now)) [
  | inl same ↦ rw same (refl, v, λ q. refl, λ e. ground arith, λ e e'. cc, λ e. cc)
  | inr other ↦ rw other (elim (Bool-cases (has_cb (m.heap p))) [
    | inl alive ↦
        rw (alive, find-some m.heap p m.timers v.sorted (v.live p ∙ alive))
          (
            refl,
            moved m v p t _ alive,
            λ q. contains-moved m v p t alive q,
            λ e. ground arith,
            λ e e'. ground arith,
            λ e. cc,
          )
    | inr dead ↦ rw dead (refl, v, λ q. refl, λ e. cc, λ e e'. cc, λ e. refl)
  ])
]
  where
    t : Timer
    t = record (m.heap p) {
      ms = ms;
      next = add64 (if from_now then now else sub64 (m.heap p).next (m.heap p).ms) ms;
    }
