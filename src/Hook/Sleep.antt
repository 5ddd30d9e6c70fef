-- ===== src/Hook/Sleep.antt =====
-- src/util/hook.cc: how long the timers of sleep, usleep and nanosleep run, in milliseconds. The products are of
-- `unsigned int` in the first, of `useconds_t` in the second, and the third is cut to an `int`, which
-- `addTimer` takes as a `uint64_t`.
use hpgs.Prelude.Int.{ℤ, pos, negsuc, of_pattern}
use hpgs.Prelude.{
  ℕ, ◌+◌, ◌-◌, ◌*◌, ◌/◌, ◌%◌, ◌^◌, ◌≤◌, ◌<◌, ◌≡◌, ◌⊎◌, arith, ltb, Bool-cases, inl, inr,
}

-- `seconds * 1000`.
unfoldable pub sleep_ms : ℕ → ℕ
sleep_ms seconds = seconds * 1000 % 2 ^ 32

-- `usec / 1000`.
unfoldable pub usleep_ms : ℕ → ℕ
usleep_ms usec = usec / 1000

-- The conversion of an `int` to a `uint64_t`.
abbrev pub to_uint64 : ℤ → ℕ
to_uint64 (pos n) = n
to_uint64 (negsuc n) = 2 ^ 64 - 1 - n

-- `timeout_ms`.
unfoldable pub nanosleep_ms : ℕ → ℕ → ℕ
nanosleep_ms tv_sec tv_nsec =
    to_uint64 (of_pattern 32 ((tv_sec * 1000 + tv_nsec / 1000 / 1000) % 2 ^ 32))

-- A sleep of `seconds` lasts as long where its milliseconds fit 32 bits, and is shorter otherwise; `usleep`
-- lasts less than a millisecond less than it is asked, and `nanosleep`, up to 2 ^ 31 milliseconds, less
-- than one less as well.
pub sleep_bounds :
    (seconds usec tv_sec tv_nsec : ℕ)
    → tv_sec * 1000 + tv_nsec / 1000 / 1000 < 2 ^ 31
    → (((seconds * 1000 < 2 ^ 32) × (sleep_ms seconds ≡ seconds * 1000))
        ⊎ ((2 ^ 32 ≤ seconds * 1000) × (sleep_ms seconds < seconds * 1000)))
      × (usleep_ms usec * 1000 ≤ usec)
      × (usec < usleep_ms usec * 1000 + 1000)
      × (nanosleep_ms tv_sec tv_nsec * 1000 * 1000 ≤ tv_sec * 1000 * 1000 * 1000 + tv_nsec)
      × (tv_sec * 1000 * 1000 * 1000 + tv_nsec < (nanosleep_ms tv_sec tv_nsec + 1) * 1000 * 1000)
unfolding sleep_ms usleep_ms nanosleep_ms
sleep_bounds seconds usec tv_sec tv_nsec fits = (
  elim (Bool-cases (ltb (seconds * 1000) (2 ^ 32))) [
    | inl small ↦ inl (ground arith, ground arith)
    | inr large ↦ inr (ground arith, ground arith)
  ],
  omega arith,
  omega arith,
  omega (arith, exact),
  omega (arith, exact),
)
  where
    exact : nanosleep_ms tv_sec tv_nsec ≡ tv_sec * 1000 + tv_nsec / 1000 / 1000
    exact = ground arith
