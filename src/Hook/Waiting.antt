-- ===== src/Hook/Waiting.antt =====
-- A call without a time-out never times out.
use hpgs.Prelude.Int.{pos}
use hpgs.Prelude.{
  ℕ, ◌-◌, ◌≡◌, ◌≢◌, refl, ap, sym, ◌∙◌, arith, Bool, true, false, none, some, inl, inr, Bool-cases,
  ◌==◌, if◌then◌else◌, List, [], ◌∷◌,
}
use hpgs.FdManager.{no_timeout}
use hpgs.IoManager.{Event, IoManager, Caller, CtlOp, Result, done, fault}
use hpgs.IoManager.Operations.{add_event}
use hpgs.Timer.{TimerManager}
use hpgs.Hook.{
  Answer, got, failed, Phase, through, trying, waiting, Io, Move, answer, callback, resume,
  meanwhile, eintr, eagain, hold, attempt, pass, run_callback, wake, move_in, move, run,
}

-- No timer is held.
abbrev pub is_untimed : Phase → Bool
is_untimed (waiting (some p)) = false
is_untimed ph = true

-- No timer, no callback to come, and no time run out; the set of timers is `ts`.
pub record Untimed {K : Type 0} (ts : TimerManager) (io : Io K) : Type 0 where
  pub no_timer : is_untimed io.phase ≡ true
  pub none_expired : io.expired ≡ 0
  pub in_time : io.cancelled ≡ 0
  pub same_timers : io.timers ≡ ts

module _ {K : Type 0} (ctl : CtlOp → ℕ → ℕ → K → Bool × K) (who : Caller) (fd : ℕ) (event : Event)
    (refusal : ℕ) (ts : TimerManager) where
  hold-Untimed :
      (io : Io K) (r : Result (Bool × IoManager K))
      → Untimed ts io
      → Untimed ts (hold ctl who fd event no_timeout refusal none io r)
  hold-Untimed io (fault f) u = record {
    no_timer = refl;
    none_expired = u.none_expired;
    in_time = u.in_time;
    same_timers = u.same_timers;
  }
  hold-Untimed io (done (true, iom')) u = record {
    no_timer = refl;
    none_expired = u.none_expired;
    in_time = u.in_time;
    same_timers = u.same_timers;
  }
  hold-Untimed io (done (false, iom')) u = record {
    no_timer = refl;
    none_expired = u.none_expired;
    in_time = u.in_time;
    same_timers = u.same_timers;
  }

  attempt-Untimed :
      (a : Answer) (now p : ℕ) (io : Io K)
      → Untimed ts io
      → Untimed ts (attempt ctl who fd event no_timeout refusal a now p io)
  attempt-Untimed (got n) now p io u = record {
    no_timer = refl;
    none_expired = u.none_expired;
    in_time = u.in_time;
    same_timers = u.same_timers;
  }
  attempt-Untimed (failed e) now p io u =
      let said : Io K = record io { errno = e } in
      let us : Untimed ts said = record {
        no_timer = u.no_timer;
        none_expired = u.none_expired;
        in_time = u.in_time;
        same_timers = u.same_timers;
      } in
      elim (Bool-cases (e == eintr)) [
        | inl i ↦ rw i us
        | inr ni ↦ rw ni (elim (Bool-cases (e == eagain)) [
          | inl again ↦
              rw again (hold-Untimed said (add_event ctl who (pos fd) event none io.iom) us)
          | inr other ↦ rw other (record {
            no_timer = refl;
            none_expired = u.none_expired;
            in_time = u.in_time;
            same_timers = u.same_timers;
          })
        ])
      ]

  pass-Untimed :
      (a : Answer) (io : Io K)
      → Untimed ts io
      → Untimed ts (pass ctl who fd event no_timeout refusal a io)
  pass-Untimed (got n) io u = record {
    no_timer = refl;
    none_expired = u.none_expired;
    in_time = u.in_time;
    same_timers = u.same_timers;
  }
  pass-Untimed (failed e) io u = record {
    no_timer = refl;
    none_expired = u.none_expired;
    in_time = u.in_time;
    same_timers = u.same_timers;
  }

  wake-Untimed :
      (io : Io K) → Untimed ts io → Untimed ts (wake ctl who fd event no_timeout refusal none io)
  wake-Untimed io u = elim (Bool-cases (io.cancelled == 0)) [
    | inl quiet ↦ rw quiet (record {
      no_timer = refl;
      none_expired = u.none_expired;
      in_time = u.in_time;
      same_timers = u.same_timers;
    })
    | inr late ↦ absurd (ground (arith, u.in_time))
  ]

  callback-Untimed :
      (ph : Phase) (io : Io K)
      → Untimed ts io
      → Untimed ts (
          if io.expired == 0
          then io
          else run_callback ctl who fd event no_timeout refusal ph
              (record io { expired = io.expired - 1 }))
  callback-Untimed ph io u = elim (Bool-cases (io.expired == 0)) [
    | inl nothing ↦ rw nothing u
    | inr some_left ↦ absurd (ground (arith, u.none_expired))
  ]

  move_in-Untimed :
      (ph : Phase) (mv : Move K) (io : Io K)
      → Untimed ts io
      → io.phase ≡ ph
      → Untimed ts (move_in ctl who fd event no_timeout refusal ph mv io)
  move_in-Untimed through (answer a now p) io u e = pass-Untimed a io u
  move_in-Untimed trying (answer a now p) io u e = attempt-Untimed a now p io u
  move_in-Untimed (waiting (some p)) mv io u e =
      absurd (timer_held (sym u.no_timer ∙ ap is_untimed e))
    where
      timer_held : true ≢ false
      timer_held e = cc
  move_in-Untimed (waiting none) resume io u e = wake-Untimed io u
  move_in-Untimed ph callback io u e = callback-Untimed ph io u
  move_in-Untimed ph (meanwhile m) io u e = record {
    no_timer = u.no_timer;
    none_expired = u.none_expired;
    in_time = u.in_time;
    same_timers = u.same_timers;
  }
  move_in-Untimed ph mv io u e = u

  -- With the time-out -1, a call that has no timer at its start never makes one and never times out:
  -- whatever moves come, the set of timers is the same, no callback of the call is ever due, and it is
  -- never marked as out of time.
  pub run-Untimed :
      (moves : List (Move K)) (io : Io K)
      → Untimed ts io
      → Untimed ts (run ctl who fd event no_timeout refusal moves io)
  unfolding run move
  run-Untimed [] io u = u
  run-Untimed (mv ∷ moves) io u = run-Untimed moves _ (move_in-Untimed io.phase mv io u refl)
