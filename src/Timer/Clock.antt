-- ===== src/Timer/Clock.antt =====
-- `detectClockRollover`.
use hpgs.Prelude.{ℕ, ◌+◌, ◌*◌, ◌^◌, ◌<◌, ◌≤◌, ◌≡◌, refl, arith, ltb}
use hpgs.Timer.{TimerManager, detect_clock_rollover}

-- Once the clock has shown an hour, a rollover is a step back of more than an hour; before that,
-- where the subtraction wraps, it is any step back. Either way the time is remembered.
pub detect_clock_rollover_lem :
    (now : ℕ) (m : TimerManager)
    → m.previous_time < 2 ^ 64
    → let (rollover, m') = detect_clock_rollover now m in
      (60 * 60 * 1000 ≤ m.previous_time → rollover ≡ ltb (now + 60 * 60 * 1000) m.previous_time)
      × (m.previous_time < 60 * 60 * 1000 → rollover ≡ ltb now m.previous_time)
      × (m'.previous_time ≡ now)
unfolding detect_clock_rollover
detect_clock_rollover_lem now m w = (λ l. ground arith, λ l. ground arith, refl)
